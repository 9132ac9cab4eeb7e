-- ===== src/Info/Contexts.antt =====
-- Which market context a price is read from.
use async_hyperliquid.Prelude.{
  String, ◌≡◌, refl, sym, ◌∙◌, inl, inr, true, false, List, [], ◌∷◌, Bool-cases, string_eq, nat_eq,
  int_eq,
}
use async_hyperliquid.Result.{ok}
use async_hyperliquid.Float.{Float, FloatOps}
use async_hyperliquid.Json.{JsonValue, null, obj, JsonObject, member, equals_text}
use async_hyperliquid.Info.{price_from_context, context_price_by_coin}

-- The context of a coin: the first one in the list with it, behind objects for other coins.
pub data IsContextOf (coin : String) : List JsonValue → JsonObject → Type 0 where
  here :
      {rest : List JsonValue} (context : JsonObject)
      → equals_text (member "coin" context) coin ≡ true
      → IsContextOf coin (obj context ∷ rest) context
  later :
      {rest : List JsonValue} {context : JsonObject} (other : JsonObject)
      → equals_text (member "coin" other) coin ≡ false
      → IsContextOf coin rest context
      → IsContextOf coin (obj other ∷ rest) context

module _ (ops : FloatOps) where
  found_here :
      (context : JsonObject) (rest : List JsonValue) (coin name t : String)
      → equals_text (member "coin" context) coin ≡ true
      → context_price_by_coin ops (obj context ∷ rest) coin name t
        ≡ price_from_context ops context name t
  unfolding context_price_by_coin
  found_here context rest coin name t h = rw h refl

  passed_over :
      (context : JsonObject) (rest : List JsonValue) (coin name t : String)
      → equals_text (member "coin" context) coin ≡ false
      → context_price_by_coin ops (obj context ∷ rest) coin name t
        ≡ context_price_by_coin ops rest coin name t
  unfolding context_price_by_coin
  passed_over context rest coin name t h = rw h refl

  -- A price by coin is read from the first context of that coin, and every context before it is an
  -- object of another coin.
  pub context_price_by_coin-first :
      (contexts : List JsonValue) (coin name request_type : String) (price : Float)
      → context_price_by_coin ops contexts coin name request_type ≡ ok price
      → (context : JsonObject) × IsContextOf coin contexts context
        × (price_from_context ops context name request_type ≡ ok price)
  unfolding context_price_by_coin
  context_price_by_coin-first [] coin name t price h = cc h
  context_price_by_coin-first (obj context ∷ rest) coin name t price h =
      elim (Bool-cases (equals_text (member "coin" context) coin)) [
        | inl same ↦
            (context, here context same, sym (found_here context rest coin name t same) ∙ h)
        | inr differ ↦
            let found =
              context_price_by_coin-first rest coin name t price
                (sym (passed_over context rest coin name t differ) ∙ h) in
            (found.0, later context differ found.1, found.2)
      ]
  context_price_by_coin-first (null ∷ rest) coin name t price h = cc h
  context_price_by_coin-first (_ ∷ rest) coin name t price h = cc h
