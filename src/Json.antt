-- ===== src/Json.antt =====
-- src/async_hyperliquid/types/common.py: `JsonValue`, as `json` decodes it and as requests are built.
use async_hyperliquid.Prelude.{
  String, Bool, true, false, Option, none, some, List, [], ◌∷◌, if◌then◌else◌, string_eq, ◌==◌,
  nat_eq, ℤ, int_eq,
}
use async_hyperliquid.Float.{Float}

mutual
  pub data JsonValue : Type 0 where
    null : JsonValue
    bool : Bool → JsonValue
    int : ℤ → JsonValue
    float : Float → JsonValue
    str : String → JsonValue
    arr : JsonList → JsonValue
    obj : JsonObject → JsonValue

  pub data JsonList : Type 0 where
    nil : JsonList
    cons : JsonValue → JsonList → JsonList

  pub data JsonObject : Type 0 where
    end : JsonObject
    field : String → JsonValue → JsonObject → JsonObject

-- Lists and objects as the program walks and builds them.
unfoldable pub items : JsonList → List JsonValue
items nil = []
items (cons v vs) = v ∷ items vs

abbrev pub array : List JsonValue → JsonValue
array vs = arr (go vs)
  where
    go : List JsonValue → JsonList
    go [] = nil
    go (x ∷ xs) = cons x (go xs)

abbrev pub fields : List (String × JsonValue) → JsonObject
fields [] = end
fields ((k, v) ∷ rest) = field k v (fields rest)

-- `value.get(key)`
unfoldable pub member : String → JsonObject → Option JsonValue
member k end = none
member k (field j v o) = if j == k then some v else member k o

abbrev pub has_member : String → JsonObject → Bool
has_member k o = elim (member k o) [ none ↦ false | some v ↦ true ]

-- `value.get(key)` where a missing key reads as `None`
abbrev pub member_or_null : String → JsonObject → JsonValue
member_or_null k o = elim (member k o) [ none ↦ null | some v ↦ v ]

-- `isinstance(v, str)`, `type(v) is int`, `isinstance(v, dict)`, `isinstance(v, list)`
abbrev pub is_str : Option JsonValue → Bool
is_str (some (str s)) = true
is_str _ = false

abbrev pub is_int : Option JsonValue → Bool
is_int (some (int n)) = true
is_int _ = false

-- `v == "text"`
abbrev pub equals_text : Option JsonValue → String → Bool
equals_text (some (str s)) t = s == t
equals_text _ t = false
