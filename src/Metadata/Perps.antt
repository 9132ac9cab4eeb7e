-- ===== src/Metadata/Perps.antt =====
-- `_dex_offsets`, `_perp_dex` and `_index_perp_metadata`.

use async_hyperliquid.Prelude.{
  ℕ, zero, suc, ◌+◌, ◌*◌, String, Bool, false, not, ◌&&◌, ◌||◌, none, some, List, [], ◌∷◌,
  string_eq, ◌==◌, nat_eq, all, contains, ℤ, pos, ◌+ℤ◌, int_eq,
}
use async_hyperliquid.Result.{protocol_error, Result, err, ok, ◌>>=◌, ◌>>◌, raise_if, or_raise}
use async_hyperliquid.Dict.{Dict, get, has_key, put}
use async_hyperliquid.Json.{JsonValue, JsonObject, member}
use async_hyperliquid.Text.{chars, of_chars, char_eq, before}
use async_hyperliquid.Metadata.{
  perp_dex_asset_offset, perp_dex_asset_stride, MetadataIndex, require_list, require_object,
  require_str, require_int,
}

unfoldable pub has_duplicates : List String → Bool
has_duplicates [] = false
has_duplicates (x ∷ xs) = contains x xs || has_duplicates xs

-- The offset of the dex at a position.
abbrev pub dex_offset : ℕ → ℤ
dex_offset zero = pos 0
dex_offset (suc i) = pos (perp_dex_asset_offset + i * perp_dex_asset_stride)

unfoldable pub enumerate_offsets : ℕ → List String → Dict String ℤ
enumerate_offsets i [] = []
enumerate_offsets i (name ∷ names) = (name, dex_offset i) ∷ enumerate_offsets (suc i) names

unfoldable pub dex_offsets : List String → Result (Dict String ℤ)
unfolding has_duplicates enumerate_offsets
dex_offsets [] = err (protocol_error "perpDexs must start with the base dex")
dex_offsets (name ∷ names) = do
  raise_if (not (name == "")) (protocol_error "perpDexs must start with the base dex")
  raise_if (has_duplicates (name ∷ names)) (protocol_error "perpDexs contains duplicate names")
  ok (enumerate_offsets 0 (name ∷ names))

unfoldable pub perp_dex : String → String
perp_dex name = elim (before ":" (chars name)) [ none ↦ "" | some dex ↦ of_chars dex ]

abbrev pub put_perp : String → ℤ → ℤ → String × ℕ → MetadataIndex → MetadataIndex
put_perp name asset_id decimals context index = record index {
  coin_by_alias = put name name index.coin_by_alias;
  asset_by_coin = put name asset_id index.asset_by_coin;
  symbol_by_coin = put name name index.symbol_by_coin;
  size_decimals_by_asset = put asset_id decimals index.size_decimals_by_asset;
  perp_context_by_coin = put name context index.perp_context_by_coin;
}

-- One round of the loop over a universe.
unfoldable pub index_perp_asset : String → ℤ → ℕ → JsonValue → MetadataIndex → Result MetadataIndex
index_perp_asset dex offset asset_index asset_value index = do
  asset ← require_object (some asset_value) "allPerpMetas[].universe[]"
  name ← require_str (member "name" asset) "allPerpMetas[].universe[].name"
  decimals ← require_int (member "szDecimals" asset) "allPerpMetas[].universe[].szDecimals"
  raise_if (not (perp_dex name == dex))
      (protocol_error "allPerpMetas contains mixed dex asset metadata")
  raise_if (has_key name index.asset_by_coin)
      (protocol_error "allPerpMetas contains duplicate asset metadata")
  ok (put_perp name (offset +ℤ pos asset_index) decimals (dex, asset_index) index)

unfoldable pub index_perp_assets :
    String → ℤ → ℕ → List JsonValue → MetadataIndex → Result MetadataIndex
index_perp_assets dex offset i [] index = ok index
index_perp_assets dex offset i (asset ∷ rest) index =
    index_perp_asset dex offset i asset index >>= index_perp_assets dex offset (suc i) rest

-- The dex of a universe that is not empty.
unfoldable pub universe_dex : JsonValue → Result String
universe_dex first = do
  first_asset ← require_object (some first) "allPerpMetas[].universe[]"
  name ← require_str (member "name" first_asset) "allPerpMetas[].universe[].name"
  ok (perp_dex name)

-- The rest of the round for one dex, over its universe; an empty one adds nothing.
unfoldable pub index_universe :
    Dict String ℤ
    → MetadataIndex × List String
    → List JsonValue
    → Result (MetadataIndex × List String)
index_universe offsets state [] = ok state
index_universe offsets (index, seen) (first ∷ rest) = do
  dex ← universe_dex first
  raise_if (contains dex seen) (protocol_error "allPerpMetas contains duplicate dex metadata")
  offset ← or_raise (get dex offsets) (protocol_error "allPerpMetas contains an unknown dex")
  index' ← index_perp_assets dex offset 0 (first ∷ rest) index
  ok (index', dex ∷ seen)

unfoldable pub index_perp_meta :
    Dict String ℤ → JsonObject → MetadataIndex × List String → Result (MetadataIndex × List String)
index_perp_meta offsets meta state = do
  universe ← require_list (member "universe" meta) "allPerpMetas[].universe"
  index_universe offsets state universe

unfoldable pub index_perp_metas :
    Dict String ℤ
    → List JsonObject
    → MetadataIndex × List String
    → Result (MetadataIndex × List String)
index_perp_metas offsets [] state = ok state
index_perp_metas offsets (meta ∷ metas) state =
    index_perp_meta offsets meta state >>= index_perp_metas offsets metas

unfoldable pub index_perp_metadata :
    List String → List JsonObject → MetadataIndex → Result MetadataIndex
index_perp_metadata dex_names all_perp_metas index = do
  offsets ← dex_offsets dex_names
  (index', seen) ← index_perp_metas offsets all_perp_metas (index, [])
  raise_if
      (not (all (λ dex. has_key dex offsets) seen && all (λ entry. contains entry.0 seen) offsets))
      (protocol_error "allPerpMetas is missing dex metadata")
  ok index'
