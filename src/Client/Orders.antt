-- ===== src/Client/Orders.antt =====
-- src/async_hyperliquid/client.py: placing orders.
use async_hyperliquid.Prelude.{
  String, Bool, true, false, not, Option, none, some, List, [], ◌∷◌, map, if◌then◌else◌, is_empty,
  any, ℤ,
}
use async_hyperliquid.Result.{value_error, Result, err, ok}
use async_hyperliquid.Json.{JsonValue}
use async_hyperliquid.Float.{Float, FloatOps}
use async_hyperliquid.Order.{OrderGrouping, na, OrderType, PlaceOrderRequest, Builder}
use async_hyperliquid.Metadata.{MarketInfo}
use async_hyperliquid.World.{Externals}
use async_hyperliquid.World.Exec.{Exec, lift, ◌>>=◌, ◌>>◌, fail_if}
use async_hyperliquid.Exchange.Trading.{submit_orders}
use async_hyperliquid.Info.Metadata.{market_infos}
use async_hyperliquid.Info.Prices.{mid_prices}
use async_hyperliquid.Client.{
  AsyncHyperliquid, is_outcome_market, validate_orders, validate_builder, market_order,
  encode_orders,
}

-- `len({market.is_spot for market in markets}) != 1`
unfoldable pub mixes_venues : List MarketInfo → Bool
mixes_venues [] = true
mixes_venues (first ∷ rest) =
    any (λ (m : MarketInfo). if first.is_spot then not m.is_spot else m.is_spot) rest

abbrev pub first_is_spot : List MarketInfo → Bool
first_is_spot [] = false
first_is_spot (first ∷ rest) = first.is_spot

-- The markets of the market orders.
unfoldable pub markets_to_price : List PlaceOrderRequest → List MarketInfo → List MarketInfo
markets_to_price (order ∷ orders) (market ∷ markets) =
    let rest = markets_to_price orders markets in if order.is_market then market ∷ rest else rest
markets_to_price _ _ = []

-- The next mid price, if the order is a market order.
abbrev pub take_mid : Bool → List Float → Result (Option Float × List Float)
take_mid false mids = ok (none, mids)
take_mid true (mid ∷ mids) = ok (some mid, mids)
take_mid true [] = err (value_error "zip() argument 2 is shorter than argument 1")

abbrev pub price_order :
    FloatOps → PlaceOrderRequest → MarketInfo → Option Float → Result PlaceOrderRequest
price_order ops order market none = ok order
price_order ops order market (some mid) = market_order ops order mid (is_outcome_market market)

-- `normalized`: each market order at its mid price, the others as they are
unfoldable pub price_orders :
    FloatOps
    → List PlaceOrderRequest
    → List MarketInfo
    → List Float
    → Result (List PlaceOrderRequest)
price_orders ops (order ∷ orders) (market ∷ markets) mids = elim (take_mid order.is_market mids) [
  | ok (mid, later) ↦ elim (price_order ops order market mid) [
    | ok priced ↦ elim (price_orders ops orders markets later) [
      | ok more ↦ ok (priced ∷ more)
      | err e ↦ err e
    ]
    | err e ↦ err e
  ]
  | err e ↦ err e
]
price_orders ops _ _ [] = ok []
price_orders ops _ _ (mid ∷ mids) = err (value_error "zip() argument 2 is longer than argument 1")

abbrev pub coins_of : List PlaceOrderRequest → List String
coins_of orders = map (λ (o : PlaceOrderRequest). o.fields_.coin) orders

-- A type other than the one that is wanted.
abbrev is_other_type : Bool → Option OrderType → Bool
is_other_type wants_trigger none = wants_trigger
is_other_type wants_trigger (some (OrderType.limit tif)) = wants_trigger
is_other_type wants_trigger (some (OrderType.trigger m p t)) = not wants_trigger

module _ (x : Externals) (a : AsyncHyperliquid) where
  unfoldable pub place_orders :
      List PlaceOrderRequest → OrderGrouping → Option Builder → Option ℤ → Exec JsonValue
  place_orders orders grouping builder expires_after = do
    fail_if (is_empty orders) (value_error "orders must not be empty")
    lift (validate_orders orders grouping)
    markets ← market_infos x a.info (coins_of orders)
    fail_if (mixes_venues markets) (value_error "orders cannot mix spot and perpetual markets")
    lift (validate_builder builder (first_is_spot markets))
    mids ← mid_prices x a.info (markets_to_price orders markets)
    normalized ← lift (price_orders x.floats orders markets mids)
    encoded ← lift (encode_orders x.floats normalized markets)
    submit_orders x a.exchange encoded grouping builder expires_after

  unfoldable pub place_order :
      String
      → Bool
      → Float
      → Float
      → Bool
      → Bool
      → Option OrderType
      → Option String
      → Float
      → Option Builder
      → Option ℤ
      → Exec JsonValue
  place_order coin is_buy sz px is_market ro order_type cloid slippage builder expires_after =
      place_orders (order ∷ []) na builder expires_after
    where
      order : PlaceOrderRequest
      order = record {
        fields_ = record {
          coin = coin;
          is_buy = is_buy;
          sz = sz;
          px = px;
          cloid = cloid;
          ro = ro;
          order_type = order_type;
        };
        is_market = is_market;
        slippage = slippage;
      }

  unfoldable pub place_limit_order : PlaceOrderRequest → Option Builder → Option ℤ → Exec JsonValue
  place_limit_order order builder expires_after = do
    fail_if order.is_market (value_error "place_limit_order requires is_market=False")
    fail_if (is_other_type false order.fields_.order_type)
        (value_error "place_limit_order requires a limit order_type")
    place_orders (order ∷ []) na builder expires_after

  unfoldable pub place_trigger_order :
      PlaceOrderRequest → OrderGrouping → Option Builder → Option ℤ → Exec JsonValue
  place_trigger_order order grouping builder expires_after = do
    fail_if order.is_market (value_error "place_trigger_order requires is_market=False")
    fail_if (is_other_type true order.fields_.order_type)
        (value_error "place_trigger_order requires a trigger order_type")
    place_orders (order ∷ []) grouping builder expires_after

  unfoldable pub place_market_order : PlaceOrderRequest → Option Builder → Option ℤ → Exec JsonValue
  place_market_order order builder expires_after = do
    fail_if (not order.is_market) (value_error "place_market_order requires is_market=True")
    place_orders (order ∷ []) na builder expires_after
