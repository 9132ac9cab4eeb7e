-- ===== src/Info/Typed.antt =====
-- What the readers of src/async_hyperliquid/_internal/info.py give for replies of known types, and what
-- an endpoint of info.py then returns.
pub mod Asking
pub mod Account
pub mod Market
pub mod Endpoints
pub mod Positions
use async_hyperliquid.Prelude.{
  String, ◌≡◌, refl, ap, Bool, true, false, Option, none, some, List, [], ◌∷◌, map, and_true, all,
}
use async_hyperliquid.Result.{Result, ok}
use async_hyperliquid.Json.{
  JsonValue, null, bool, int, str, arr, obj, JsonList, nil, cons, JsonObject, items, array,
}
use async_hyperliquid.Info.{
  expect_object, expect_optional_object, expect_list, expect_optional_list, expect_bool, expect_int,
  expect_string, expect_pair,
}
use async_hyperliquid.Info.Market.{expect_objects, texts}
use async_hyperliquid.Types.{Schema, text, pair_of, has_type}
use async_hyperliquid.Types.Kinds.{
  JsonKind, null_kind, bool_kind, int_kind, text_kind, list_kind, object_kind, kind_of, all_of,
  typed-all_of,
}

abbrev pub is_object : JsonKind → Bool
is_object object_kind = true
is_object _ = false

abbrev pub is_list : JsonKind → Bool
is_list list_kind = true
is_list _ = false

abbrev pub is_boolean : JsonKind → Bool
is_boolean bool_kind = true
is_boolean _ = false

abbrev pub is_integer : JsonKind → Bool
is_integer int_kind = true
is_integer _ = false

abbrev pub is_text : JsonKind → Bool
is_text text_kind = true
is_text _ = false

abbrev pub or_null : (JsonKind → Bool) → JsonKind → Bool
or_null p null_kind = true
or_null p k = p k

-- The JSON value that an optional result, and a pair, stands for.
abbrev pub optional_json {ℓ} : {A : Type ℓ} → (A → JsonValue) → Option A → JsonValue
optional_json to_json none = null
optional_json to_json (some a) = to_json a

abbrev pub pair_json : JsonObject × List JsonValue → JsonValue
pair_json (object, list) = arr (cons (obj object) (cons (array list) nil))

pub array-items : (vs : JsonList) → array (items vs) ≡ arr vs
unfolding items
array-items nil = refl
array-items (cons v vs) = ap in_front (array-items vs)
  where
    in_front : JsonValue → JsonValue
    in_front (arr us) = arr (cons v us)
    in_front u = u

-- A reader takes the value, and what it gives stands for the value itself.
pub data Reads {ℓ} {A : Type ℓ} (read : JsonValue → String → Result A) (to_json : A → JsonValue)
    (v : JsonValue) : Type ℓ where
  reads : (a : A) → ((t : String) → read v t ≡ ok a) → to_json a ≡ v → Reads read to_json v

pub object-Reads : (v : JsonValue) → is_object (kind_of v) ≡ true → Reads expect_object obj v
object-Reads (obj o) k = reads o (λ t. refl) refl
object-Reads _ k = cc

pub list-Reads : (v : JsonValue) → is_list (kind_of v) ≡ true → Reads expect_list array v
list-Reads (arr vs) k = reads (items vs) (λ t. refl) (array-items vs)
list-Reads _ k = cc

pub boolean-Reads : (v : JsonValue) → is_boolean (kind_of v) ≡ true → Reads expect_bool bool v
boolean-Reads (bool b) k = reads b (λ t. refl) refl
boolean-Reads _ k = cc

pub integer-Reads : (v : JsonValue) → is_integer (kind_of v) ≡ true → Reads expect_int int v
integer-Reads (int n) k = reads n (λ t. refl) refl
integer-Reads _ k = cc

pub text-Reads : (v : JsonValue) → is_text (kind_of v) ≡ true → Reads expect_string str v
text-Reads (str s) k = reads s (λ t. refl) refl
text-Reads _ k = cc

pub optional_object-Reads :
    (v : JsonValue)
    → or_null is_object (kind_of v) ≡ true
    → Reads expect_optional_object (optional_json obj) v
optional_object-Reads null k = reads none (λ t. refl) refl
optional_object-Reads (obj o) k = reads (some o) (λ t. refl) refl
optional_object-Reads _ k = cc

pub optional_list-Reads :
    (v : JsonValue)
    → or_null is_list (kind_of v) ≡ true
    → Reads expect_optional_list (optional_json array) v
optional_list-Reads null k = reads none (λ t. refl) refl
optional_list-Reads (arr vs) k = reads (some (items vs)) (λ t. refl) (array-items vs)
optional_list-Reads _ k = cc

pair_of-Reads :
    (v w : JsonValue)
    → is_object (kind_of v) ≡ true
    → is_list (kind_of w) ≡ true
    → Reads expect_pair pair_json (arr (cons v (cons w nil)))
unfolding expect_pair items
pair_of-Reads (obj o) (arr vs) k l =
    reads (o, items vs) (λ t. refl) (ap (λ u. arr (cons (obj o) (cons u nil))) (array-items vs))
pair_of-Reads (obj o) _ k l = cc
pair_of-Reads null _ k l = cc
pair_of-Reads _ _ k l = cc

pub pair-Reads :
    (s t : Schema) (v : JsonValue)
    → all_of s is_object ≡ true
    → all_of t is_list ≡ true
    → has_type false (Schema.pair_of s t) v ≡ true
    → Reads expect_pair pair_json v
unfolding has_type
pair-Reads s t (arr (cons v (cons w nil))) a b h =
    let (first, second) = and_true (has_type false s v) (has_type false t w) h in
    pair_of-Reads v w (typed-all_of false s is_object v a first)
      (typed-all_of false t is_list w b second)
pair-Reads s t _ a b h = cc

abbrev ObjectsRead : List JsonValue → String → Type 0
ObjectsRead vs t = (os : List JsonObject) × (expect_objects vs t ≡ ok os) × (map obj os ≡ vs)

cons_objects :
    (v : JsonValue) (vs : List JsonValue) (t : String)
    → Reads expect_object obj v
    → ObjectsRead vs t
    → ObjectsRead (v ∷ vs) t
unfolding expect_objects
cons_objects v vs t (reads o f g) (os, e, m) =
    (o ∷ os, rw (expect_objects, f t, e) refl, rw (g, m) refl)

-- The items of a list, read one by one.
pub objects-read :
    (s : Schema) (vs : List JsonValue) (t : String)
    → all_of s is_object ≡ true
    → all (has_type false s) vs ≡ true
    → ObjectsRead vs t
unfolding expect_objects
objects-read s [] t a h = ([], refl, refl)
objects-read s (v ∷ vs) t a h =
    let (first, rest) = and_true (has_type false s v) (all (has_type false s) vs) h in
    cons_objects v vs t (object-Reads v (typed-all_of false s is_object v a first))
      (objects-read s vs t a rest)

pub texts-read :
    (vs : List JsonValue)
    → all (has_type false text) vs ≡ true
    → (ts : List String) × (texts vs ≡ some ts) × (map str ts ≡ vs)
unfolding texts has_type
texts-read [] h = ([], refl, refl)
texts-read (str s ∷ vs) h = let (ts, e, m) = texts-read vs h in (s ∷ ts, rw e refl, rw m refl)
texts-read (_ ∷ vs) h = cc
