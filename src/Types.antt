-- ===== src/Types.antt =====
-- The types that src/async_hyperliquid/types declares for JSON values, as values: a `TypedDict` with its
-- keys, `Literal`, unions and the generic types. `has_type` says when a value has one of them.
pub mod Actions
pub mod Envelope
pub mod Replies
pub mod OrderReplies
pub mod UserReplies
pub mod FeeReplies
pub mod SpotReplies
pub mod PerpReplies
pub mod LedgerReplies
pub mod Kinds
use async_hyperliquid.Prelude.{
  String, Bool, true, false, not, ◌&&◌, ◌||◌, Option, none, some, List, [], ◌∷◌, string_eq, ◌==◌,
  nat_eq, all, int_eq,
}
use async_hyperliquid.Json.{
  JsonValue, null, bool, int, float, str, arr, obj, nil, cons, JsonObject, end, field, items,
  member,
}

mutual
  pub data Schema : Type 0 where
    anything never text integer number boolean nothing : Schema
    exactly : String → Schema
    always_true : Schema
    either : Schema → Schema → Schema
    list_of : Schema → Schema
    dict_of : Schema → Schema
    pair_of : Schema → Schema → Schema
    typed_dict : Keys → Schema

  -- The keys of a `TypedDict`; `optional` ones are `NotRequired`.
  pub data Keys : Type 0 where
    no_more : Keys
    required optional : String → Schema → Keys → Keys

-- The keys of one `TypedDict` in front of those of another, as a subclass has them.
abbrev pub inherit : Keys → Keys → Keys
inherit no_more ks = ks
inherit (required k s js) ks = required k s (inherit js ks)
inherit (optional k s js) ks = optional k s (inherit js ks)

abbrev pub is_key : String → Keys → Bool
is_key k no_more = false
is_key k (required j s ks) = (j == k) || is_key k ks
is_key k (optional j s ks) = (j == k) || is_key k ks

-- Whether an object has no other keys.
abbrev pub has_only : Keys → JsonObject → Bool
has_only ks end = true
has_only ks (field k v o) = is_key k ks && has_only ks o

-- The values of an object.
abbrev pub values_of : JsonObject → List JsonValue
values_of end = []
values_of (field k v o) = v ∷ values_of o

abbrev pub when_given : Bool → Option JsonValue → (JsonValue → Bool) → Bool
when_given otherwise none valid = otherwise
when_given otherwise (some v) valid = valid v

-- A value that is built is `closed`: it has the declared keys alone. A value that is received may
-- have further ones.
unfoldable mutual
  pub has_type : Bool → Schema → JsonValue → Bool
  has_type closed anything v = true
  has_type closed text (str s) = true
  has_type closed integer (int n) = true
  has_type closed number (int n) = true
  has_type closed number (float x) = true
  has_type closed boolean (bool b) = true
  has_type closed nothing null = true
  has_type closed (exactly t) (str s) = s == t
  has_type closed always_true (bool b) = b
  has_type closed (either s t) v = has_type closed s v || has_type closed t v
  has_type closed (list_of s) (arr vs) = all (has_type closed s) (items vs)
  has_type closed (dict_of s) (obj o) = all (has_type closed s) (values_of o)
  has_type closed (pair_of s t) (arr (cons v (cons w nil))) =
      has_type closed s v && has_type closed t w
  has_type closed (typed_dict ks) (obj o) = has_keys closed ks o && (not closed || has_only ks o)
  has_type _ _ _ = false

  pub has_keys : Bool → Keys → JsonObject → Bool
  has_keys closed no_more o = true
  has_keys closed (required k s ks) o =
      when_given false (member k o) (has_type closed s) && has_keys closed ks o
  has_keys closed (optional k s ks) o =
      when_given true (member k o) (has_type closed s) && has_keys closed ks o
