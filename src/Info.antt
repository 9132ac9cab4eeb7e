-- ===== src/Info.antt =====
-- src/async_hyperliquid/_internal/info.py: what a reply of the info endpoint must be, and the prices in
-- market contexts. The info client of info.py is in the children, `wait_for_tasks` in `Tasks`.
pub mod Contexts
pub mod Tasks
pub mod Group
pub mod Client
pub mod Account
pub mod Market
pub mod Metadata
pub mod Prices
pub mod Queries
pub mod Lookups
pub mod Cache
pub mod Settled
pub mod Typed
use async_hyperliquid.Prelude.{
  String, Bool, Option, none, some, List, [], ◌∷◌, ◌++◌, if◌then◌else◌, string_eq, nat_eq,
  get_elem?, ℤ, pos, negsuc, int_eq,
}
use async_hyperliquid.Result.{Error, protocol_error, Result, err, ok, ◌>>=◌, ◌>>◌, or_raise}
use async_hyperliquid.Float.{Float, FloatOps}
use async_hyperliquid.Json.{
  JsonValue, null, bool, int, str, arr, obj, JsonObject, items, member, equals_text,
}
use async_hyperliquid.Text.{chars, of_chars, char_eq}

abbrev pub says : String → String → Error
says request_type problem = protocol_error (of_chars (chars request_type ++ chars problem))

abbrev pub expect_object : JsonValue → String → Result JsonObject
expect_object (obj o) request_type = ok o
expect_object _ request_type = err (says request_type " response must be an object")

abbrev pub expect_optional_object : JsonValue → String → Result (Option JsonObject)
expect_optional_object null request_type = ok none
expect_optional_object (obj o) request_type = ok (some o)
expect_optional_object _ request_type = err (says request_type " response must be an object")

abbrev pub expect_list : JsonValue → String → Result (List JsonValue)
expect_list (arr vs) request_type = ok (items vs)
expect_list _ request_type = err (says request_type " response must be a list")

abbrev pub expect_optional_list : JsonValue → String → Result (Option (List JsonValue))
expect_optional_list null request_type = ok none
expect_optional_list (arr vs) request_type = ok (some (items vs))
expect_optional_list _ request_type = err (says request_type " response must be a list")

abbrev pub expect_bool : JsonValue → String → Result Bool
expect_bool (bool b) request_type = ok b
expect_bool _ request_type = err (says request_type " response must be a boolean")

abbrev pub expect_int : JsonValue → String → Result ℤ
expect_int (int n) request_type = ok n
expect_int _ request_type = err (says request_type " response must be an integer")

abbrev pub expect_string : JsonValue → String → Result String
expect_string (str s) request_type = ok s
expect_string _ request_type = err (says request_type " response must be a string")

-- The two items, the first checked first.
abbrev pub pair_of : List JsonValue → String → Result (JsonObject × List JsonValue)
pair_of (first ∷ (second ∷ [])) request_type = do
  object ← expect_object first request_type
  list ← expect_list second request_type
  ok (object, list)
pair_of _ request_type = err (says request_type " response must contain two items")

unfoldable pub expect_pair : JsonValue → String → Result (JsonObject × List JsonValue)
expect_pair value request_type = do pair ← expect_list value request_type; pair_of pair request_type

module _ (ops : FloatOps) where
  abbrev pub price_of : Option JsonValue → String → Result Float
  price_of (some (str text)) request_type =
      or_raise (ops.parse text) (says request_type " contains an invalid price")
  price_of _ request_type = err (says request_type " contains a malformed price")

  unfoldable pub price_from_context : JsonObject → String → String → Result Float
  price_from_context context name request_type = price_of (member name context) request_type

  -- `0 <= index < len(contexts)`
  abbrev pub context_at : List JsonValue → ℤ → Option JsonValue
  context_at contexts (pos i) = get_elem? contexts i
  context_at contexts (negsuc i) = none

  unfoldable pub context_price : List JsonValue → ℤ → String → String → Result Float
  context_price contexts index name request_type = do
    value ← or_raise (context_at contexts index) (says request_type " is missing a market context")
    context ← expect_object value request_type
    price_from_context context name request_type

  unfoldable pub context_price_by_coin : List JsonValue → String → String → String → Result Float
  unfolding price_from_context
  context_price_by_coin [] coin name request_type =
      err (says request_type (of_chars (chars " is missing a market context for " ++ chars coin)))
  context_price_by_coin (value ∷ rest) coin name request_type =
      let later = context_price_by_coin rest coin name request_type in
      elim (expect_object value request_type) [
        | ok context ↦
            if equals_text (member "coin" context) coin
            then price_from_context context name request_type
            else later
        | err e ↦ err e
      ]
