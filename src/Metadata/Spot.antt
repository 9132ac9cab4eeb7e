-- ===== src/Metadata/Spot.antt =====
-- `_index_spot_tokens`, `_index_spot_metadata` and `_build_metadata`.
use async_hyperliquid.Prelude.{
  ℕ, String, ◌||◌, Option, none, some, List, [], ◌∷◌, ◌++◌, string_eq, nat_eq, contains, ℤ, pos,
  negsuc, ◌+ℤ◌, int_eq,
}
use async_hyperliquid.Result.{
  Error, protocol_error, Result, err, ok, ◌>>=◌, ◌>>◌, raise_if, or_raise,
}
use async_hyperliquid.Dict.{Dict, get, has_key, put, setdefault}
use async_hyperliquid.Json.{JsonValue, JsonObject, member}
use async_hyperliquid.Text.{chars, of_chars, char_eq}
use async_hyperliquid.Metadata.{
  spot_asset_offset, SpotToken, MetadataIndex, MetadataSnapshot, empty_index, require_list,
  require_object, require_str, require_int, require_non_negative_int, require_bool,
  require_optional_str, require_optional_evm_contract,
}
use async_hyperliquid.Metadata.Perps.{index_perp_metadata}

unfoldable pub require_present : String → JsonObject → String → Result JsonValue
require_present key token message = or_raise (member key token) (protocol_error message)

-- The checks of one token, in the order of the source.
unfoldable pub read_spot_token : JsonValue → Result (ℕ × SpotToken)
read_spot_token token_value = do
  token ← require_object (some token_value) "spotMeta.tokens[]"
  token_index ← require_non_negative_int (member "index" token) "spotMeta.tokens[].index"
  name ← require_str (member "name" token) "spotMeta.tokens[].name"
  require_bool (member "isCanonical" token) "spotMeta.tokens[].isCanonical"
  size_decimals ←
      require_non_negative_int (member "szDecimals" token) "spotMeta.tokens[].szDecimals"
  wei_decimals ←
      require_non_negative_int (member "weiDecimals" token) "spotMeta.tokens[].weiDecimals"
  token_id ← require_str (member "tokenId" token) "spotMeta.tokens[].tokenId"
  evm_contract ←
      require_present "evmContract" token "metadata field spotMeta.tokens[].evmContract is required"
  full_name ←
      require_present "fullName" token "metadata field spotMeta.tokens[].fullName is required"
  require_optional_evm_contract evm_contract
  require_optional_str full_name "spotMeta.tokens[].fullName"
  ok (
    token_index,
    record {
      name = name;
      size_decimals = pos size_decimals;
      wei_decimals = wei_decimals;
      token_id = token_id;
      object = token;
    },
  )

unfoldable pub index_tokens : List JsonValue → Dict ℕ SpotToken → Result (Dict ℕ SpotToken)
index_tokens [] tokens = ok tokens
index_tokens (value ∷ rest) tokens = do
  (token_index, token) ← read_spot_token value
  raise_if (has_key token_index tokens) (protocol_error "spotMeta contains duplicate token indexes")
  index_tokens rest (put token_index token tokens)

unfoldable pub index_spot_tokens : JsonObject → Result (Dict ℕ SpotToken)
index_spot_tokens spot_object = do
  token_objects ← require_list (member "tokens" spot_object) "spotMeta.tokens"
  index_tokens token_objects []

-- `tokens_by_index.get(index)`; the keys are not negative.
abbrev pub token_at : ℤ → Dict ℕ SpotToken → Option SpotToken
token_at (pos i) tokens = get i tokens
token_at (negsuc i) tokens = none

abbrev pub slash : String → String → String
slash base quote = of_chars (chars base ++ (chars "/" ++ chars quote))

abbrev pub put_pair : String → ℤ → SpotToken → SpotToken → MetadataIndex → MetadataIndex
put_pair coin asset_id base quote index = record index {
  coin_by_alias =
      setdefault quote.name quote.name
        (setdefault (slash base.name quote.name) coin (put coin coin index.coin_by_alias));
  asset_by_coin = put coin asset_id index.asset_by_coin;
  symbol_by_coin = put coin (slash base.name quote.name) index.symbol_by_coin;
  size_decimals_by_asset = put asset_id base.size_decimals index.size_decimals_by_asset;
  spot_token_by_coin = setdefault quote.name quote (put coin base index.spot_token_by_coin);
  spot_market_coins = coin ∷ index.spot_market_coins;
}

-- `len(token_indexes) != 2`
abbrev pub two_indexes : List JsonValue → Result (JsonValue × JsonValue)
two_indexes (base ∷ (quote ∷ [])) = ok (base, quote)
two_indexes _ = err (protocol_error "spotMeta pair must contain two token indexes")

abbrev pub unknown_token : Error
unknown_token = protocol_error "spotMeta pair references an unknown token"

unfoldable pub index_pair :
    Dict ℕ SpotToken → JsonValue → MetadataIndex × List ℤ → Result (MetadataIndex × List ℤ)
index_pair tokens pair_value (index, pair_indexes) = do
  pair ← require_object (some pair_value) "spotMeta.universe[]"
  coin ← require_str (member "name" pair) "spotMeta.universe[].name"
  pair_index ← require_int (member "index" pair) "spotMeta.universe[].index"
  token_indexes ← require_list (member "tokens" pair) "spotMeta.universe[].tokens"
  (first, second) ← two_indexes token_indexes
  base_index ← require_int (some first) "spotMeta.universe[].tokens[0]"
  quote_index ← require_int (some second) "spotMeta.universe[].tokens[1]"
  base ← or_raise (token_at base_index tokens) unknown_token
  quote ← or_raise (token_at quote_index tokens) unknown_token
  raise_if (has_key coin index.asset_by_coin || contains pair_index pair_indexes)
      (protocol_error "spotMeta contains duplicate pair metadata")
  ok (put_pair coin (spot_asset_offset +ℤ pair_index) base quote index, pair_index ∷ pair_indexes)

unfoldable pub index_pairs :
    Dict ℕ SpotToken → List JsonValue → MetadataIndex × List ℤ → Result (MetadataIndex × List ℤ)
index_pairs tokens [] state = ok state
index_pairs tokens (pair ∷ pairs) state = index_pair tokens pair state >>= index_pairs tokens pairs

unfoldable pub index_spot_metadata :
    JsonObject → Dict ℕ SpotToken → MetadataIndex → Result MetadataIndex
index_spot_metadata spot_object tokens index = do
  pairs ← require_list (member "universe" spot_object) "spotMeta.universe"
  (index', _) ← index_pairs tokens pairs (index, [])
  ok index'

unfoldable pub build_metadata : List String → List JsonObject → JsonObject → Result MetadataSnapshot
build_metadata dex_names all_perp_metas spot_object = do
  perps ← index_perp_metadata dex_names all_perp_metas empty_index
  tokens ← index_spot_tokens spot_object
  index ← index_spot_metadata spot_object tokens perps
  ok (record { index = index; perp_dex_names = dex_names })
