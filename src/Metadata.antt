-- ===== src/Metadata.antt =====
-- src/async_hyperliquid/_internal/metadata.py: the records of the index, and what a field must be.
-- The children index the perpetual and the spot markets, and look markets up.
pub mod Perps
pub mod Spot
pub mod Lookup
pub mod Resolves
pub mod Built
use async_hyperliquid.Prelude.{
  ℕ, ◌*◌, String, Bool, Option, none, some, List, [], ◌++◌, string_eq, nat_eq, ℤ, pos, negsuc,
  int_eq,
}
use async_hyperliquid.Result.{protocol_error, Result, err, ok, ◌>>=◌, ◌>>◌}
use async_hyperliquid.Dict.{Dict}
use async_hyperliquid.Json.{JsonValue, null, bool, int, str, arr, obj, JsonObject, items, member}
use async_hyperliquid.Text.{chars, of_chars, char_eq}

abbrev pub spot_asset_offset : ℤ
spot_asset_offset = pos 10_000

abbrev pub perp_dex_asset_offset : ℕ
perp_dex_asset_offset = 110_000

abbrev pub perp_dex_asset_stride : ℕ
perp_dex_asset_stride = 10_000

abbrev pub outcome_asset_offset : ℕ
outcome_asset_offset = 100_000_000

pub record MarketInfo : Type 0 where
  pub coin : String
  pub asset : ℤ
  pub size_decimals : ℤ
  pub is_spot : Bool
  pub dex : String

-- A validated token: the fields that are read, and the object itself.
pub record SpotToken : Type 0 where
  pub name : String
  pub size_decimals : ℤ
  pub wei_decimals : ℕ
  pub token_id : String
  pub object : JsonObject

-- `_MetadataIndex`; `_MetadataSnapshot` is the finished index with the names of the dexes.
pub record MetadataIndex : Type 0 where
  pub coin_by_alias : Dict String String
  pub asset_by_coin : Dict String ℤ
  pub symbol_by_coin : Dict String String
  pub size_decimals_by_asset : Dict ℤ ℤ
  pub spot_token_by_coin : Dict String SpotToken
  pub perp_context_by_coin : Dict String (String × ℕ)
  pub spot_market_coins : List String

pub record MetadataSnapshot : Type 0 where
  pub index : MetadataIndex
  pub open index use *
  pub perp_dex_names : List String

abbrev pub empty_index : MetadataIndex
empty_index = record {
  coin_by_alias = [];
  asset_by_coin = [];
  symbol_by_coin = [];
  size_decimals_by_asset = [];
  spot_token_by_coin = [];
  perp_context_by_coin = [];
  spot_market_coins = [];
}

abbrev pub malformed {ℓ} : {A : Type ℓ} → String → String → Result A
malformed field_name problem =
    err (protocol_error (of_chars (chars "metadata field " ++ (chars field_name ++ chars problem))))

unfoldable pub require_list : Option JsonValue → String → Result (List JsonValue)
require_list (some (arr l)) name = ok (items l)
require_list _ name = malformed name " must be a list"

unfoldable pub require_object : Option JsonValue → String → Result JsonObject
require_object (some (obj o)) name = ok o
require_object _ name = malformed name " must be an object"

unfoldable pub require_str : Option JsonValue → String → Result String
require_str (some (str s)) name = ok s
require_str _ name = malformed name " must be a string"

unfoldable pub require_int : Option JsonValue → String → Result ℤ
require_int (some (int n)) name = ok n
require_int _ name = malformed name " must be an integer"

unfoldable pub require_non_negative_int : Option JsonValue → String → Result ℕ
require_non_negative_int (some (int (pos n))) name = ok n
require_non_negative_int (some (int (negsuc n))) name = malformed name " must be non-negative"
require_non_negative_int _ name = malformed name " must be an integer"

unfoldable pub require_bool : Option JsonValue → String → Result Bool
require_bool (some (bool b)) name = ok b
require_bool _ name = malformed name " must be a boolean"

unfoldable pub require_optional_str : JsonValue → String → Result (Option String)
require_optional_str null name = ok none
require_optional_str (str s) name = ok (some s)
require_optional_str _ name = malformed name " must be a string or null"

unfoldable pub require_optional_evm_contract : JsonValue → Result (Unit {0})
unfolding require_object require_str require_int
require_optional_evm_contract null = ok tt
require_optional_evm_contract value = do
  contract ← require_object (some value) "spotMeta.tokens[].evmContract"
  require_str (member "address" contract) "spotMeta.tokens[].evmContract.address"
  require_int (member "evm_extra_wei_decimals" contract)
      "spotMeta.tokens[].evmContract.evm_extra_wei_decimals"
  ok tt
