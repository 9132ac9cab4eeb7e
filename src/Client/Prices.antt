-- ===== src/Client/Prices.antt =====
-- The prices of market orders.
use mathlib.Core.Path.{subst}
use async_hyperliquid.Prelude.{
  ◌≡◌, refl, sym, inl, inr, Bool, true, false, Option, none, some, List, [], ◌∷◌, arith, length,
}
use async_hyperliquid.Result.{ok, ok_injective, Result-cases}
use async_hyperliquid.Float.{Float, FloatOps}
use async_hyperliquid.Order.{ioc, limit_order_type, PlaceOrderRequest}
use async_hyperliquid.Metadata.{MarketInfo}
use async_hyperliquid.Client.{default_slippage, market_price, is_outcome_market, market_order}
use async_hyperliquid.Client.Orders.{markets_to_price, take_mid, price_order, price_orders}

-- A market order as it is encoded: an IOC limit order at a price, with its other fields.
abbrev pub at_price : PlaceOrderRequest → Float → PlaceOrderRequest
at_price order price = record {
  fields_ = record order.fields_ { px = price; order_type = some (limit_order_type ioc) };
  is_market = false;
  slippage = default_slippage;
}

-- What becomes of the orders, market by market, with the markets to price and their mids in order. A
-- market order takes the next of these, which is its own market, with the mid there; any other order stays.
pub data ArePriced (ops : FloatOps)
    : List PlaceOrderRequest
      → List MarketInfo
      → List MarketInfo
      → List Float
      → List PlaceOrderRequest
      → Type 0 where
  done : ArePriced ops [] [] [] [] []
  as_it_is :
      {order : PlaceOrderRequest} {m : MarketInfo} {orders ns : List PlaceOrderRequest}
      {markets asked : List MarketInfo} {mids : List Float}
      → order.is_market ≡ false
      → ArePriced ops orders markets asked mids ns
      → ArePriced ops (order ∷ orders) (m ∷ markets) asked mids (order ∷ ns)
  at_market :
      {order : PlaceOrderRequest} {m : MarketInfo} {orders ns : List PlaceOrderRequest}
      {markets asked : List MarketInfo} {mids : List Float} (mid price : Float)
      → order.is_market ≡ true
      → market_price ops mid order.fields_.is_buy order.slippage (is_outcome_market m) ≡ ok price
      → ArePriced ops orders markets asked mids ns
      → ArePriced ops
          (order ∷ orders)
          (m ∷ markets)
          (m ∷ asked)
          (mid ∷ mids)
          (at_price order price ∷ ns)

take_mid-none :
    (b : Bool) (mids later : List Float)
    → take_mid b mids ≡ ok (none, later)
    → (b ≡ false) × (mids ≡ later)
take_mid-none false mids later t = (refl, cc)
take_mid-none true [] later t = cc
take_mid-none true (mid ∷ mids) later t = cc

take_mid-some :
    (b : Bool) (mids later : List Float) (mid : Float)
    → take_mid b mids ≡ ok (some mid, later)
    → (b ≡ true) × (mids ≡ mid ∷ later)
take_mid-some false mids later mid t = cc
take_mid-some true [] later mid t = cc
take_mid-some true (first ∷ mids) later mid t = (refl, cc)

module _ (ops : FloatOps) where
  market_order-at_price :
      (order n : PlaceOrderRequest) (mid : Float) (is_outcome : Bool)
      → market_order ops order mid is_outcome ≡ ok n
      → (price : Float) × (market_price ops mid order.fields_.is_buy order.slippage is_outcome
          ≡ ok price)
        × (n ≡ at_price order price)
  unfolding market_order
  market_order-at_price order n mid is_outcome h =
      elim (Result-cases (market_price ops mid order.fields_.is_buy order.slippage is_outcome)) [
        | inl (price, p) ↦ let k = rw (p, market_order) at h in (price, p, ok_injective (sym k))
        | inr (failure, p) ↦ let k = rw (p, market_order) at h in cc
      ]

  price_orders-cons :
      (order : PlaceOrderRequest) (orders : List PlaceOrderRequest) (market : MarketInfo)
      (markets : List MarketInfo) (mids : List Float) (ns : List PlaceOrderRequest)
      → price_orders ops (order ∷ orders) (market ∷ markets) mids ≡ ok ns
      → (mid : Option Float) × (later : List Float) × (priced : PlaceOrderRequest) × (more : List
          PlaceOrderRequest)
        × (take_mid order.is_market mids ≡ ok (mid, later))
        × (price_order ops order market mid ≡ ok priced)
        × (price_orders ops orders markets later ≡ ok more)
        × (ns ≡ priced ∷ more)
  unfolding price_orders
  price_orders-cons order orders market markets mids ns h =
      elim (Result-cases (take_mid order.is_market mids)) [
        | inr (raised, t) ↦ let k = rw (t, price_orders) at h in cc
        | inl ((mid, later), t) ↦
            let k = rw (t, price_orders) at h in
            elim (Result-cases (price_order ops order market mid)) [
              | inr (raised, p) ↦ let l = rw p at k in cc
              | inl (priced, p) ↦
                  let l = rw p at k in
                  elim (Result-cases (price_orders ops orders markets later)) [
                    | inr (raised, r) ↦ let m = rw r at l in cc
                    | inl (more, r) ↦
                        let m = rw r at l in
                        (mid, later, priced, more, t, p, r, ok_injective (sym m))
                  ]
            ]
      ]

  asked_for :
      (order : PlaceOrderRequest) (orders : List PlaceOrderRequest) (m : MarketInfo)
      (markets : List MarketInfo)
      → ((order.is_market ≡ false)
          → markets_to_price (order ∷ orders) (m ∷ markets) ≡ markets_to_price orders markets)
        × ((order.is_market ≡ true)
            → markets_to_price (order ∷ orders) (m ∷ markets) ≡ m ∷ markets_to_price orders markets)
  unfolding markets_to_price
  asked_for order orders m markets = (λ h. rw h refl, λ h. rw h refl)

  cons-ArePriced :
      (order n : PlaceOrderRequest) (m : MarketInfo) (orders ns : List PlaceOrderRequest)
      (markets : List MarketInfo) (mids later : List Float) (mid : Option Float)
      → take_mid order.is_market mids ≡ ok (mid, later)
      → price_order ops order m mid ≡ ok n
      → ArePriced ops orders markets (markets_to_price orders markets) later ns
      → ArePriced ops
          (order ∷ orders)
          (m ∷ markets)
          (markets_to_price (order ∷ orders) (m ∷ markets))
          mids
          (n ∷ ns)
  cons-ArePriced order n m orders ns markets mids later none t p rest =
      let (plain, same) = take_mid-none order.is_market mids later t in
      let stays : ArePriced ops (order ∷ orders) (m ∷ markets) (markets_to_price orders markets)
          later (order ∷ ns) =
        as_it_is plain rest in
      subst
        (λ (o : PlaceOrderRequest).
          ArePriced ops (order ∷ orders) (m ∷ markets)
            (markets_to_price (order ∷ orders) (m ∷ markets)) mids (o ∷ ns))
        (ok_injective p) (rw ((asked_for order orders m markets).0 plain, same) stays)
  cons-ArePriced order n m orders ns markets mids later (some mid) t p rest =
      let (market, same) = take_mid-some order.is_market mids later mid t in
      let (price, known, made) = market_order-at_price order n mid (is_outcome_market m) p in
      rw ((asked_for order orders m markets).1 market, same, made)
        (at_market mid price market known rest)

  -- With a market for each order, the orders that are encoded are the orders asked for, one by one, where
  -- each market order became an IOC limit order at the market price of its own mid: the mids belong in
  -- order to the markets to price, which are the markets of the market orders. All mids are used.
  pub price_orders-ArePriced :
      (orders : List PlaceOrderRequest) (markets : List MarketInfo) (mids : List Float)
      (ns : List PlaceOrderRequest)
      → length orders ≡ length markets
      → price_orders ops orders markets mids ≡ ok ns
      → ArePriced ops orders markets (markets_to_price orders markets) mids ns
  unfolding price_orders markets_to_price
  price_orders-ArePriced [] [] [] ns same h =
      subst (ArePriced ops [] [] [] []) (ok_injective h) done
  price_orders-ArePriced [] [] (mid ∷ mids) ns same h = cc
  price_orders-ArePriced [] (market ∷ markets) mids ns same h = grind arith
  price_orders-ArePriced (order ∷ orders) [] mids ns same h = grind arith
  price_orders-ArePriced (order ∷ orders) (market ∷ markets) mids ns same h =
      let (mid, later, priced, more, t, p, r, same_list) =
        price_orders-cons order orders market markets mids ns h in
      subst
        (ArePriced ops (order ∷ orders) (market ∷ markets)
          (markets_to_price (order ∷ orders) (market ∷ markets)) mids)
        (sym same_list)
        (cons-ArePriced order priced market orders more markets mids later mid t p
          (price_orders-ArePriced orders markets later more (omega arith) r))
