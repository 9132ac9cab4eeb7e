-- ===== src/Client.antt =====
-- src/async_hyperliquid/client.py: the facade over the info and the exchange client, and the checks
-- and conversions that its methods share.
pub mod Orders
pub mod Manage
pub mod Positions
pub mod Effects
pub mod Commands
pub mod Nonces
pub mod Typed
pub mod Encoded
pub mod Checks
pub mod Validation
pub mod Prices
pub mod Closing
use async_hyperliquid.Order.{info_url as network_info_url}
use async_hyperliquid.Prelude.{
  ℕ, String, Bool, true, false, not, ◌&&◌, ◌||◌, Option, none, some, List, [], ◌∷◌, ◌++◌,
  if◌then◌else◌, string_eq, nat_eq, any, pos, negsuc, ltb_ℤ, int_eq,
}
use async_hyperliquid.Result.{protocol_error, value_error, Result, err, ok}
use async_hyperliquid.Float.{
  Float, finite, is_finite, float_lt, float_le, float_zero, is_at_most_zero, FloatOps,
}
use async_hyperliquid.Text.{chars, of_chars, char_eq, print, starts_with_char}
use async_hyperliquid.Order.{
  Network, ioc, OrderGrouping, normal_tpsl, OrderType, limit, trigger, limit_order_type,
  PlaceOrderRequest, Builder, EncodedOrder,
}
use async_hyperliquid.Metadata.{MarketInfo}
use async_hyperliquid.Encoding.{
  outcome_min_price, outcome_max_price, to_float, order_decimals, wire_float, normalize_price,
  encode_order,
}
use async_hyperliquid.World.{ClientSession, ClientTimeout, HttpTransport, Externals}
use async_hyperliquid.World.Exec.{Exec}
use async_hyperliquid.Transport.{new_transport, open_transport, CloseEnd, close_transport}
use async_hyperliquid.Exchange.{Config, new_exchange}
use async_hyperliquid.Info.Client.{InfoClient, url_or_default, from_transport}
use async_hyperliquid.Dict.{from_keys}

-- The attributes of `AsyncHyperliquid`; `_execution_address` is the exchange client's.
pub record AsyncHyperliquid : Type 0 where
  pub info : InfoClient
  pub exchange : Config
  pub dexs : List String

-- `__init__`, with the transport that it makes. Whether the key is one, the account library says.
unfoldable pub new_client :
    Externals
    → Bool
    → String
    → Option String
    → Network
    → Option String
    → Option String
    → Option ClientSession
    → Option ClientTimeout
    → List String
    → Result (AsyncHyperliquid × HttpTransport)
unfolding new_transport from_transport new_exchange network_info_url
new_client x key_is_valid account_address vault_address network info exchange session timeout dexs =
    if not key_is_valid
    then err (value_error "signing_key must be a 32-byte hex private key")
    else elim (new_transport session timeout) [
      | ok transport ↦ elim (from_transport x (url_or_default info network)) [
        | ok i ↦ elim (new_exchange x account_address vault_address network exchange) [
          | ok c ↦ ok (record { info = i; exchange = c; dexs = from_keys dexs }, transport)
          | err e ↦ err e
        ]
        | err e ↦ err e
      ]
      | err e ↦ err e
    ]

-- The default of `slippage`, 0.05.
abbrev pub default_slippage : Float
default_slippage = finite false 3602879701896397 (negsuc 55)

abbrev pub float_one : Float
float_one = finite false 1 (pos 0)

-- `max(a, b)` and `min(a, b)`: the first unless the second is beyond it
abbrev pub max_float : Float → Float → Float
max_float a b = if float_lt a b then b else a

abbrev pub min_float : Float → Float → Float
min_float a b = if float_lt b a then b else a

unfoldable pub market_price : FloatOps → Float → Bool → Float → Bool → Result Float
market_price ops mid is_buy slippage is_outcome =
    let factor = if is_buy then ops.add float_one slippage else ops.sub float_one slippage in
    let price = ops.mul mid factor in
    if not (is_finite mid) || is_at_most_zero mid
    then err (protocol_error "mid price must be finite and greater than zero")
    else if not is_outcome
    then ok price
    else ok (min_float (max_float price outcome_min_price) outcome_max_price)

-- `market.coin.startswith("#")`
unfoldable pub is_outcome_market : MarketInfo → Bool
is_outcome_market market = starts_with_char "#" (chars market.coin)

unfoldable pub encode_twap_price : FloatOps → Float → MarketInfo → Result String
encode_twap_price ops price market =
    elim (normalize_price ops price (order_decimals market.is_spot market.size_decimals)
      (is_outcome_market market)) [
        | ok normalized ↦ wire_float ops (to_float normalized)
        | err e ↦ err e
      ]

abbrev pub is_trigger_type : Option OrderType → Bool
is_trigger_type none = false
is_trigger_type (some (OrderType.limit tif)) = false
is_trigger_type (some (OrderType.trigger is_market price tpsl)) = true

abbrev pub is_trigger_order : PlaceOrderRequest → Bool
is_trigger_order order = is_trigger_type order.fields_.order_type

-- `math.isfinite(slippage) and 0 <= slippage < 1`
unfoldable pub is_slippage : Float → Bool
is_slippage s = is_finite s && (float_le float_zero s && float_lt s float_one)

unfoldable pub validate_order : PlaceOrderRequest → Result (Unit {0})
unfolding is_slippage
validate_order order =
    if order.is_market && is_trigger_order order
    then err
        (value_error "outer is_market cannot be used with a trigger order; use trigger.isMarket")
    else if order.is_market && not (is_slippage order.slippage)
    then err (value_error "slippage must be finite and in [0, 1)")
    else ok tt

unfoldable pub validate_each : List PlaceOrderRequest → Result (Unit {0})
unfolding validate_order
validate_each [] = ok tt
validate_each (order ∷ orders) =
    let rest = validate_each orders in elim (validate_order order) [ ok u ↦ rest | err e ↦ err e ]

-- The shape of a `normalTpsl` group.
unfoldable pub validate_group : List PlaceOrderRequest → Result (Unit {0})
validate_group (parent ∷ (child ∷ children)) =
    if is_trigger_order parent
    then err (value_error "normalTpsl first order must be a non-trigger parent")
    else if any (λ (o : PlaceOrderRequest). not (is_trigger_order o)) (child ∷ children)
    then err (value_error "normalTpsl child orders must be trigger orders")
    else ok tt
validate_group _ = err (value_error "normalTpsl requires a parent and at least one trigger child")

abbrev pub validate_grouping : OrderGrouping → List PlaceOrderRequest → Result (Unit {0})
validate_grouping normal_tpsl orders = validate_group orders
validate_grouping _ orders = ok tt

unfoldable pub validate_orders : List PlaceOrderRequest → OrderGrouping → Result (Unit {0})
unfolding validate_each validate_group
validate_orders orders grouping = elim (validate_each orders) [
  | ok u ↦ validate_grouping grouping orders
  | err e ↦ err e
]

abbrev pub max_builder_fee_tenths_bps : Bool → ℕ
max_builder_fee_tenths_bps is_spot = if is_spot then 1000 else 100

unfoldable pub validate_builder : Option Builder → Bool → Result (Unit {0})
validate_builder none is_spot = ok tt
validate_builder (some builder) is_spot =
    if ltb_ℤ (pos (max_builder_fee_tenths_bps is_spot)) builder.fee_tenths_bps
    then err (
        value_error (
          of_chars (
            chars "builder fee_tenths_bps must be <= "
            ++ (print (max_builder_fee_tenths_bps is_spot)
                ++ (chars " for "
                    ++ (chars (if is_spot then "spot" else "perpetual") ++ chars " orders"))))))
    else ok tt

unfoldable pub market_order : FloatOps → PlaceOrderRequest → Float → Bool → Result PlaceOrderRequest
unfolding market_price
market_order ops order mid is_outcome =
    elim (market_price ops mid order.fields_.is_buy order.slippage is_outcome) [
      | ok price ↦ ok (record {
        fields_ = record order.fields_ { px = price; order_type = some (limit_order_type ioc) };
        is_market = false;
        slippage = default_slippage;
      })
      | err e ↦ err e
    ]

unfoldable pub encode_orders :
    FloatOps → List PlaceOrderRequest → List MarketInfo → Result (List EncodedOrder)
encode_orders ops (order ∷ orders) (market ∷ markets) =
    let rest = encode_orders ops orders markets in
    elim (encode_order ops order.fields_ market.asset market.size_decimals market.is_spot
      (is_outcome_market market)) [
        | ok encoded ↦ elim rest [ ok more ↦ ok (encoded ∷ more) | err e ↦ err e ]
        | err e ↦ err e
      ]
encode_orders ops [] [] = ok []
encode_orders ops _ _ = err (value_error "zip() argument 2 is of another length than argument 1")

-- `open` and `close`
unfoldable pub open_client : Exec (Unit {0})
open_client = open_transport

unfoldable pub close_client : CloseEnd → Exec (Unit {0})
close_client how = close_transport how
