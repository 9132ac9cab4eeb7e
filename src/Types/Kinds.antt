-- ===== src/Types/Kinds.antt =====
-- Of which kinds the values of a type are.
use async_hyperliquid.Prelude.{◌≡◌, inl, inr, Bool, true, false, ◌&&◌, arith, Bool-cases}
use async_hyperliquid.Json.{JsonValue, null, bool, int, float, str, arr, obj}
use async_hyperliquid.Types.{
  Schema, anything, never, text, integer, number, boolean, nothing, exactly, always_true, either,
  list_of, dict_of, pair_of, typed_dict, has_type,
}

pub data JsonKind : Type 0 where
  null_kind bool_kind int_kind float_kind text_kind list_kind object_kind : JsonKind

abbrev pub kind_of : JsonValue → JsonKind
kind_of null = null_kind
kind_of (bool b) = bool_kind
kind_of (int n) = int_kind
kind_of (float x) = float_kind
kind_of (str s) = text_kind
kind_of (arr vs) = list_kind
kind_of (obj o) = object_kind

-- Whether a test of kinds is true of all kinds of values that a type has.
abbrev pub all_of : Schema → (JsonKind → Bool) → Bool
all_of anything p = false
all_of never p = true
all_of text p = p text_kind
all_of integer p = p int_kind
all_of number p = p int_kind && p float_kind
all_of boolean p = p bool_kind
all_of nothing p = p null_kind
all_of (exactly t) p = p text_kind
all_of always_true p = p bool_kind
all_of (either s t) p = all_of s p && all_of t p
all_of (list_of s) p = p list_kind
all_of (dict_of s) p = p object_kind
all_of (pair_of s t) p = p list_kind
all_of (typed_dict ks) p = p object_kind

pub typed-all_of :
    (closed : Bool) (s : Schema) (p : JsonKind → Bool) (v : JsonValue)
    → all_of s p ≡ true
    → has_type closed s v ≡ true
    → p (kind_of v) ≡ true
unfolding has_type
typed-all_of closed (either s t) p v a h = elim (Bool-cases (has_type closed s v)) [
  | inl y ↦ typed-all_of closed s p v (ground arith) y
  | inr n ↦ typed-all_of closed t p v (ground arith) (ground arith)
]
typed-all_of closed text p (str x) a h = a
typed-all_of closed integer p (int x) a h = a
typed-all_of closed number p (int x) a h = ground arith
typed-all_of closed number p (float x) a h = ground arith
typed-all_of closed boolean p (bool x) a h = a
typed-all_of closed nothing p null a h = a
typed-all_of closed (exactly t) p (str x) a h = a
typed-all_of closed always_true p (bool x) a h = a
typed-all_of closed (list_of s) p (arr vs) a h = a
typed-all_of closed (pair_of s t) p (arr vs) a h = a
typed-all_of closed (dict_of s) p (obj o) a h = a
typed-all_of closed (typed_dict ks) p (obj o) a h = a
typed-all_of closed _ p _ a h = cc
