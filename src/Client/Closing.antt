-- ===== src/Client/Closing.antt =====
-- The orders that close the open positions.
use mathlib.Core.Path.{subst}
use mathlib.Core.List.{Memᴰ}
use async_hyperliquid.Prelude.{
  String, ◌≡◌, refl, ap, inl, inr, true, false, not, Option, none, some, List, [], ◌∷◌,
  if◌then◌else◌, Bool-cases, Option-cases, string_eq, ◌==◌, nat_eq, All, All-map, int_eq,
}
use async_hyperliquid.Result.{ok, ok_injective, Result-cases}
use async_hyperliquid.Dict.{Dict, get, put, get-put}
use async_hyperliquid.Json.{JsonValue, null, bool, int, float, str, arr, obj, JsonObject, member}
use async_hyperliquid.Float.{Float, finite, infinite, nan, is_finite, is_zero, FloatOps}
use async_hyperliquid.Order.{PlaceOrderRequest}
use async_hyperliquid.Client.Positions.{
  finite_size, sized, read_position, read_positions, closing_order, size_of, closing_orders,
}

-- The other sign.
abbrev pub negated : Float → Float
negated (finite s m e) = finite (not s) m e
negated (infinite s) = infinite (not s)
negated nan = nan

-- What a filled order adds to a position.
pub position_change : PlaceOrderRequest → Float
position_change order = if order.fields_.is_buy then order.fields_.sz else negated order.fields_.sz

-- A market order for the coin that can only reduce the position and that takes all of it back.
pub record Reverses (coin : String) (size : Float) (order : PlaceOrderRequest) : Type 0 where
  pub for_coin : order.fields_.coin ≡ coin
  pub by_market : order.is_market ≡ true
  pub only_reduces : order.fields_.ro ≡ true
  pub takes_back : position_change order ≡ negated size

closing_order-Reverses :
    (coin : String) (size : Float)
    → is_finite size ≡ true
    → is_zero size ≡ false
    → Reverses coin size (closing_order coin size)
unfolding position_change
closing_order-Reverses coin (finite true m e) f z = record {
  for_coin = refl;
  by_market = refl;
  only_reduces = refl;
  takes_back = rw z refl;
}
closing_order-Reverses coin (finite false m e) f z = record {
  for_coin = refl;
  by_market = refl;
  only_reduces = refl;
  takes_back = refl;
}
closing_order-Reverses coin (infinite s) f z = cc
closing_order-Reverses coin nan f z = cc

some_injective : {a b : Float} → some a ≡ some b → a ≡ b
some_injective h = cc

AllFinite : Dict String Float → Type 0
AllFinite sizes =
    (coin : String) (size : Float) → get coin sizes ≡ some size → is_finite size ≡ true

finite_size-finite :
    (c : String) (parsed : Option Float) (coin : String) (size : Float)
    → finite_size c parsed ≡ ok (coin, size)
    → is_finite size ≡ true
finite_size-finite c none coin size h = cc
finite_size-finite c (some found) coin size h = elim (Bool-cases (is_finite found)) [
  | inl f ↦
      subst (λ (s : Float). is_finite s ≡ true)
        (ap (λ (p : String × Float). p.1) (ok_injective (rw f at h))) f
  | inr f ↦ let k = rw f at h in cc
]

sized-finite :
    (ops : FloatOps) (c v : Option JsonValue) (coin : String) (size : Float)
    → sized ops c v ≡ ok (coin, size)
    → is_finite size ≡ true
sized-finite ops (some (str c)) (some (str v)) coin size h =
    finite_size-finite c (ops.parse v) coin size h
sized-finite ops none v coin size h = cc
sized-finite ops (some (str c)) none coin size h = cc
sized-finite ops (some null) v coin size h = cc
sized-finite ops (some (bool b)) v coin size h = cc
sized-finite ops (some (int i)) v coin size h = cc
sized-finite ops (some (float f)) v coin size h = cc
sized-finite ops (some (arr a)) v coin size h = cc
sized-finite ops (some (obj o)) v coin size h = cc
sized-finite ops (some (str c)) (some null) coin size h = cc
sized-finite ops (some (str c)) (some (bool b)) coin size h = cc
sized-finite ops (some (str c)) (some (int i)) coin size h = cc
sized-finite ops (some (str c)) (some (float f)) coin size h = cc
sized-finite ops (some (str c)) (some (arr a)) coin size h = cc
sized-finite ops (some (str c)) (some (obj o)) coin size h = cc

read_position-finite :
    (ops : FloatOps) (position : JsonObject) (coin : String) (size : Float)
    → read_position ops position ≡ ok (coin, size)
    → is_finite size ≡ true
unfolding read_position
read_position-finite ops position coin size h =
    sized-finite ops (member "coin" position) (member "szi" position) coin size h

put-AllFinite :
    (coin : String) (size : Float) (sizes : Dict String Float)
    → is_finite size ≡ true
    → AllFinite sizes
    → AllFinite (put coin size sizes)
unfolding AllFinite
put-AllFinite coin size sizes f all_finite other_coin found h =
    elim (Bool-cases (coin == other_coin)) [
      | inl same ↦
          subst (λ (s : Float). is_finite s ≡ true)
            (some_injective (rw (get-put coin other_coin size sizes, same) at h)) f
      | inr differ ↦
          all_finite other_coin found (rw (get-put coin other_coin size sizes, differ) at h)
    ]

read_positions-AllFinite :
    (ops : FloatOps) (positions_ : List JsonObject) (sizes result : Dict String Float)
    → AllFinite sizes
    → read_positions ops positions_ sizes ≡ ok result
    → AllFinite result
unfolding read_positions
read_positions-AllFinite ops [] sizes result f h = subst AllFinite (ok_injective h) f
read_positions-AllFinite ops (position ∷ positions_) sizes result f h =
    elim (Result-cases (read_position ops position)) [
      | inr (e, r) ↦ let k = rw (r, read_positions) at h in cc
      | inl ((coin, size), r) ↦
          read_positions-AllFinite ops positions_ (put coin size sizes) result
            (put-AllFinite coin size sizes (read_position-finite ops position coin size r) f)
            (rw (r, read_positions) at h)
    ]

no_sizes-AllFinite : AllFinite []
unfolding AllFinite get
no_sizes-AllFinite coin size h = cc

-- An order that closes the position of one of the coins.
pub record ClosesOne (sizes : Dict String Float) (coins : List String) (order : PlaceOrderRequest)
    : Type 0 where
  pub coin : String
  pub asked_for : Memᴰ coin coins
  pub is_open : is_zero (size_of sizes coin) ≡ false
  pub reverses : Reverses coin (size_of sizes coin) order

ClosesOne-tail :
    (sizes : Dict String Float) (coin : String) (coins : List String) (order : PlaceOrderRequest)
    → ClosesOne sizes coins order
    → ClosesOne sizes (coin ∷ coins) order
ClosesOne-tail sizes coin coins order c = record {
  coin = c.coin;
  asked_for = Memᴰ.tail c.asked_for;
  is_open = c.is_open;
  reverses = c.reverses;
}

size_of-finite :
    (sizes : Dict String Float) (coin : String)
    → AllFinite sizes
    → is_finite (size_of sizes coin) ≡ true
unfolding AllFinite size_of
size_of-finite sizes coin f = elim (Option-cases (get coin sizes)) [
  | inl n ↦ rw (n, size_of) refl
  | inr (size, s) ↦ rw (s, size_of) (f coin size s)
]

closing_orders-ClosesOne :
    (sizes : Dict String Float) (coins : List String)
    → AllFinite sizes
    → All (ClosesOne sizes coins) (closing_orders sizes coins)
unfolding closing_orders
closing_orders-ClosesOne sizes [] f = tt
closing_orders-ClosesOne sizes (coin ∷ coins) f =
    let rest =
      All-map (ClosesOne-tail sizes coin coins) (closing_orders sizes coins)
        (closing_orders-ClosesOne sizes coins f) in
    elim (Bool-cases (is_zero (size_of sizes coin))) [
      | inl z ↦ rw z rest
      | inr z ↦ rw z (
        record {
          coin = coin;
          asked_for = Memᴰ.head refl;
          is_open = z;
          reverses =
              closing_order-Reverses coin (size_of sizes coin) (size_of-finite sizes coin f) z;
        },
        rest,
      )
    ]

closing_orders-complete :
    (sizes : Dict String Float) (coins : List String) (coin : String)
    → Memᴰ coin coins
    → is_zero (size_of sizes coin) ≡ false
    → Memᴰ (closing_order coin (size_of sizes coin)) (closing_orders sizes coins)
unfolding closing_orders
closing_orders-complete sizes [] coin m z = elim m [ ]
closing_orders-complete sizes (first ∷ coins) coin (Memᴰ.head e) z = rw (← e, z) (Memᴰ.head refl)
closing_orders-complete sizes (first ∷ coins) coin (Memᴰ.tail m) z =
    let rest = closing_orders-complete sizes coins coin m z in
    elim (Bool-cases (is_zero (size_of sizes first))) [
      | inl y ↦ rw y rest
      | inr y ↦ rw y (Memᴰ.tail rest)
    ]

-- The orders that close the positions which were read: each is a market order that can only reduce,
-- for one of the coins and its open position, and takes back exactly that position; and each of the
-- coins with an open position has such an order.
pub closing_orders-reverse :
    (ops : FloatOps) (found : List JsonObject) (sizes : Dict String Float) (coins : List String)
    → read_positions ops found [] ≡ ok sizes
    → All (ClosesOne sizes coins) (closing_orders sizes coins)
      × ((coin : String)
          → Memᴰ coin coins
          → is_zero (size_of sizes coin) ≡ false
          → (order : PlaceOrderRequest) × Memᴰ order (closing_orders sizes coins)
            × Reverses coin (size_of sizes coin) order)
closing_orders-reverse ops found sizes coins h =
    let f = read_positions-AllFinite ops found [] sizes no_sizes-AllFinite h in
    (
      closing_orders-ClosesOne sizes coins f,
      λ coin m z. (
        closing_order coin (size_of sizes coin),
        closing_orders-complete sizes coins coin m z,
        closing_order-Reverses coin (size_of sizes coin) (size_of-finite sizes coin f) z,
      ),
    )
