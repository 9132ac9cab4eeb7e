-- ===== src/Info/Typed/Positions.antt =====
-- src/async_hyperliquid/info.py: the positions in account states of the declared type.
use async_hyperliquid.Prelude.{
  String, ◌≡◌, refl, sym, inl, inr, Bool, true, false, some, List, [], ◌∷◌, ◌++◌, Option-cases,
  string_eq, nat_eq, and_true, all, All, All-append, int_eq,
}
use async_hyperliquid.Result.{ok}
use async_hyperliquid.Json.{
  JsonValue, arr, obj, JsonList, JsonObject, items, member, member_or_null,
}
use async_hyperliquid.Info.Prices.{position_of, positions_of, positions_in}
use async_hyperliquid.Types.{
  Schema, exactly, list_of, typed_dict, Keys, no_more, required, when_given, has_type, has_keys,
}
use async_hyperliquid.Types.Kinds.{all_of, typed-all_of}
use async_hyperliquid.Types.PerpReplies.{
  position_type, asset_position_type, clearinghouse_state_type,
}
use async_hyperliquid.Info.Typed.{is_object, reads, object-Reads}

-- A required key has a value of its type, and the other keys are as declared.
required_key :
    (closed : Bool) (k : String) (s : Schema) (ks : Keys) (o : JsonObject)
    → has_keys closed (required k s ks) o ≡ true
    → ((v : JsonValue) × (member k o ≡ some v) × (has_type closed s v ≡ true))
      × (has_keys closed ks o ≡ true)
unfolding has_keys
required_key closed k s ks o h =
    let (given, others) =
      and_true (when_given false (member k o) (has_type closed s)) (has_keys closed ks o) h in
    elim (Option-cases (member k o)) [
      | inl missing ↦ let bad = rw missing at given in cc
      | inr (v, e) ↦ ((v, e, rw e at given), others)
    ]

typed_dict-keys :
    (ks : Keys) (o : JsonObject)
    → has_type false (typed_dict ks) (obj o) ≡ true
    → has_keys false ks o ≡ true
unfolding has_type
typed_dict-keys ks o h = (and_true (has_keys false ks o) true h).0

-- A value of a `TypedDict` is an object.
typed_object :
    (s : Schema) (v : JsonValue)
    → all_of s is_object ≡ true
    → has_type false s v ≡ true
    → (o : JsonObject) × (v ≡ obj o)
typed_object s v a h = elim (object-Reads v (typed-all_of false s is_object v a h)) [
  | reads o e same ↦ (o, sym same)
]

abbrev pub IsTypedPosition : JsonObject → Type 0
IsTypedPosition p = has_type false position_type (obj p) ≡ true

position_found :
    (v u : JsonValue) (entry p : JsonObject)
    → v ≡ obj entry
    → member "position" entry ≡ some u
    → u ≡ obj p
    → position_of v ≡ ok p
unfolding position_of
position_found v u entry p a b c = rw (a, position_of, member_or_null, b, c) refl

position_of-typed :
    (v : JsonValue)
    → has_type false asset_position_type v ≡ true
    → (p : JsonObject) × (position_of v ≡ ok p) × IsTypedPosition p
position_of-typed v h =
    let (entry, e) = typed_object asset_position_type v refl h in
    let keys =
      typed_dict-keys
        (required "type" (exactly "oneWay") (required "position" position_type no_more)) entry
        (rw e at h) in
    let (_, others) =
      required_key false "type" (exactly "oneWay") (required "position" position_type no_more) entry
        keys in
    let ((u, at_position, typed), _) =
      required_key false "position" position_type no_more entry others in
    let (p, f) = typed_object position_type u refl typed in
    (p, position_found v u entry p e at_position f, rw f at typed)

cons_positions :
    (v : JsonValue) (vs : List JsonValue) (p : JsonObject) (ps : List JsonObject)
    → position_of v ≡ ok p
    → positions_of vs ≡ ok ps
    → positions_of (v ∷ vs) ≡ ok (p ∷ ps)
unfolding positions_of
cons_positions v vs p ps e f = rw (positions_of, e, f) refl

positions_of-typed :
    (vs : List JsonValue)
    → all (has_type false asset_position_type) vs ≡ true
    → (ps : List JsonObject) × (positions_of vs ≡ ok ps) × All IsTypedPosition ps
unfolding positions_of
positions_of-typed [] h = ([], refl, tt)
positions_of-typed (v ∷ vs) h =
    let (first, rest) =
      and_true (has_type false asset_position_type v) (all (has_type false asset_position_type) vs)
        h in
    let (p, e, t) = position_of-typed v first in
    let (ps, f, ts) = positions_of-typed vs rest in (p ∷ ps, cons_positions v vs p ps e f, (t, ts))

-- The entries of a list of one type.
typed_list :
    (s : Schema) (v : JsonValue)
    → has_type false (list_of s) v ≡ true
    → (vs : JsonList) × (v ≡ arr vs) × (all (has_type false s) (items vs) ≡ true)
unfolding has_type
typed_list s (arr vs) h = (vs, refl, h)
typed_list s _ h = cc

cons_states :
    (state : JsonObject) (states : List JsonObject) (v : JsonValue) (vs : JsonList)
    (ps qs : List JsonObject)
    → member "assetPositions" state ≡ some v
    → v ≡ arr vs
    → positions_of (items vs) ≡ ok ps
    → positions_in states ≡ ok qs
    → positions_in (state ∷ states) ≡ ok (ps ++ qs)
unfolding positions_in
cons_states state states v vs ps qs a b e f = rw (positions_in, a, b, e, f) refl

-- The account states have the declared type.
abbrev pub AreTypedStates : List JsonObject → Type 0
AreTypedStates = All (λ state. has_type false clearinghouse_state_type (obj state) ≡ true)

-- From account states of the declared type, further keys aside, the positions are read without an
-- exception, and each has the declared type of a position.
pub positions_in-typed :
    (states : List JsonObject)
    → AreTypedStates states
    → (ps : List JsonObject) × (positions_in states ≡ ok ps) × All IsTypedPosition ps
unfolding positions_in
positions_in-typed [] h = ([], refl, tt)
positions_in-typed (state ∷ states) (h, hs) =
    let keys = typed_dict-keys _ state h in
    let ((v, a, typed), _) =
      required_key false "assetPositions" (list_of asset_position_type) _ state keys in
    let (vs, b, each) = typed_list asset_position_type v typed in
    let (ps, e, t) = positions_of-typed (items vs) each in
    let (qs, f, u) = positions_in-typed states hs in
    (ps ++ qs, cons_states state states v vs ps qs a b e f, All-append IsTypedPosition ps qs t u)
