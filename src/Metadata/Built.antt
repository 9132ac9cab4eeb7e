-- ===== src/Metadata/Built.antt =====
-- src/async_hyperliquid/_internal/metadata.py: every market of a snapshot that `_build_metadata`
-- returns can be looked up.
use async_hyperliquid.Prelude.{
  ℕ, suc, String, ◌≡◌, refl, false, not, ◌&&◌, ◌||◌, none, some, List, [], ◌∷◌, string_eq, ◌==◌,
  nat_eq, all, contains, ℤ, pos, ◌+ℤ◌, int_eq,
}
use async_hyperliquid.Result.{protocol_error, ok, or_raise}
use async_hyperliquid.Dict.{Dict, get, has_key}
use async_hyperliquid.Json.{JsonValue, JsonObject, member}
use async_hyperliquid.Text.{char_eq}
use async_hyperliquid.Metadata.{
  spot_asset_offset, MarketInfo, SpotToken, MetadataIndex, MetadataSnapshot, empty_index,
  require_list, require_object, require_str, require_int,
}
use async_hyperliquid.Metadata.Perps.{
  dex_offsets, perp_dex, index_perp_asset, index_perp_assets, universe_dex, index_universe,
  index_perp_meta, index_perp_metas, index_perp_metadata,
}
use async_hyperliquid.Metadata.Spot.{
  index_spot_tokens, token_at, two_indexes, unknown_token, index_pair, index_pairs,
  index_spot_metadata, build_metadata,
}
use async_hyperliquid.Metadata.Lookup.{
  is_outcome_coin, outcome_market_info, indexed_market_info, market_info,
}
use async_hyperliquid.Metadata.Resolves.{
  Returns, Returns-bind, Returns-raise_if, Returns-ok, Resolves, put_perp-Resolves,
  put_pair-Resolves,
}

index_perp_assets-Resolves :
    (dex : String) (offset : ℤ) (i : ℕ) (assets : List JsonValue) (index : MetadataIndex)
    → Resolves index
    → Returns Resolves (index_perp_assets dex offset i assets index)
unfolding index_perp_assets index_perp_asset
index_perp_assets-Resolves dex offset i [] index h = Returns-ok h
index_perp_assets-Resolves dex offset i (asset ∷ rest) index h =
    Returns-bind _ _
      (λ index' e. index_perp_assets-Resolves dex offset (suc i) rest index' (added.at index' e))
  where
    added : Returns Resolves (index_perp_asset dex offset i asset index)
    added = Returns-bind (require_object (some asset) "allPerpMetas[].universe[]") _ (λ object e.
        Returns-bind (require_str (member "name" object) "allPerpMetas[].universe[].name") _
          (λ name e1.
            Returns-bind
              (require_int (member "szDecimals" object) "allPerpMetas[].universe[].szDecimals") _
              (λ decimals e2.
                Returns-raise_if (not (perp_dex name == dex))
                  (protocol_error "allPerpMetas contains mixed dex asset metadata") _
                  (Returns-raise_if (has_key name index.asset_by_coin)
                    (protocol_error "allPerpMetas contains duplicate asset metadata") _
                    (Returns-ok
                      (put_perp-Resolves name (offset +ℤ pos i) decimals (dex, i) index h))))))

index_universe-Resolves :
    (offsets : Dict String ℤ) (state : MetadataIndex × List String) (universe : List JsonValue)
    → Resolves state.0
    → Returns (λ s. Resolves s.0) (index_universe offsets state universe)
unfolding index_universe
index_universe-Resolves offsets state [] h = Returns-ok h
index_universe-Resolves offsets (index, seen) (first ∷ rest) h =
    Returns-bind (universe_dex first) _ (λ dex e1.
      Returns-raise_if (contains dex seen)
        (protocol_error "allPerpMetas contains duplicate dex metadata") _
        (Returns-bind
          (or_raise (get dex offsets) (protocol_error "allPerpMetas contains an unknown dex")) _
          (λ offset e3.
            Returns-bind (index_perp_assets dex offset 0 (first ∷ rest) index) _ (λ index' e4.
              Returns-ok
                ((index_perp_assets-Resolves dex offset 0 (first ∷ rest) index h).at index' e4)))))

index_perp_metas-Resolves :
    (offsets : Dict String ℤ) (metas : List JsonObject) (state : MetadataIndex × List String)
    → Resolves state.0
    → Returns (λ s. Resolves s.0) (index_perp_metas offsets metas state)
unfolding index_perp_metas index_perp_meta
index_perp_metas-Resolves offsets [] state h = Returns-ok h
index_perp_metas-Resolves offsets (meta ∷ metas) state h =
    Returns-bind (index_perp_meta offsets meta state) _
      (λ state' e. index_perp_metas-Resolves offsets metas state' (added.at state' e))
  where
    added : Returns (λ s. Resolves s.0) (index_perp_meta offsets meta state)
    added =
        Returns-bind (require_list (member "universe" meta) "allPerpMetas[].universe") _
          (λ universe e. index_universe-Resolves offsets state universe h)

index_pair-Resolves :
    (tokens : Dict ℕ SpotToken) (pair : JsonValue) (index : MetadataIndex) (seen : List ℤ)
    → Resolves index
    → Returns (λ s. Resolves s.0) (index_pair tokens pair (index, seen))
unfolding index_pair
index_pair-Resolves tokens pair index seen h =
    Returns-bind (require_object (some pair) "spotMeta.universe[]") _ (λ object e.
      Returns-bind (require_str (member "name" object) "spotMeta.universe[].name") _ (λ coin e1.
        Returns-bind (require_int (member "index" object) "spotMeta.universe[].index") _ (λ at_ e2.
          Returns-bind (require_list (member "tokens" object) "spotMeta.universe[].tokens") _
            (λ indexes e3. Returns-bind (two_indexes indexes) _ (λ two e4.
              Returns-bind (require_int (some two.0) "spotMeta.universe[].tokens[0]") _ (λ b e5.
                Returns-bind (require_int (some two.1) "spotMeta.universe[].tokens[1]") _ (λ q e6.
                  Returns-bind (or_raise (token_at b tokens) unknown_token) _ (λ base e7.
                    Returns-bind (or_raise (token_at q tokens) unknown_token) _ (λ quote e8.
                      Returns-raise_if (has_key coin index.asset_by_coin || contains at_ seen)
                        (protocol_error "spotMeta contains duplicate pair metadata") _
                        (Returns-ok (
                          put_pair-Resolves coin (spot_asset_offset +ℤ at_) base quote index
                            h)))))))))))

index_pairs-Resolves :
    (tokens : Dict ℕ SpotToken) (pairs : List JsonValue) (state : MetadataIndex × List ℤ)
    → Resolves state.0
    → Returns (λ s. Resolves s.0) (index_pairs tokens pairs state)
unfolding index_pairs
index_pairs-Resolves tokens [] state h = Returns-ok h
index_pairs-Resolves tokens (pair ∷ pairs) (index, seen) h =
    Returns-bind (index_pair tokens pair (index, seen)) _ (λ state' e.
      index_pairs-Resolves tokens pairs state'
        ((index_pair-Resolves tokens pair index seen h).at state' e))

empty_Resolves : Resolves empty_index
unfolding get
empty_Resolves = record { at = λ coin asset found. cc }

index_perp_metadata-Resolves :
    (dex_names : List String) (all_perp_metas : List JsonObject)
    → Returns Resolves (index_perp_metadata dex_names all_perp_metas empty_index)
unfolding index_perp_metadata
index_perp_metadata-Resolves dex_names all_perp_metas =
    Returns-bind (dex_offsets dex_names) _ (λ offsets e.
      Returns-bind (index_perp_metas offsets all_perp_metas (empty_index, [])) _ (λ state e1.
        Returns-raise_if
          (not (
            all (λ dex. has_key dex offsets) state.1
            && all (λ entry. contains entry.0 state.1) offsets))
          (protocol_error "allPerpMetas is missing dex metadata") _
          (Returns-ok (
            (index_perp_metas-Resolves offsets all_perp_metas (empty_index, []) empty_Resolves).at
              state e1))))

index_spot_metadata-Resolves :
    (spot : JsonObject) (tokens : Dict ℕ SpotToken) (index : MetadataIndex)
    → Resolves index
    → Returns Resolves (index_spot_metadata spot tokens index)
unfolding index_spot_metadata
index_spot_metadata-Resolves spot tokens index h =
    Returns-bind (require_list (member "universe" spot) "spotMeta.universe") _ (λ pairs e.
      Returns-bind (index_pairs tokens pairs (index, [])) _
        (λ state e1. Returns-ok ((index_pairs-Resolves tokens pairs (index, []) h).at state e1)))

build_metadata-Resolves :
    (dex_names : List String) (all_perp_metas : List JsonObject) (spot : JsonObject)
    → Returns (λ s. Resolves s.index) (build_metadata dex_names all_perp_metas spot)
unfolding build_metadata
build_metadata-Resolves dex_names all_perp_metas spot =
    Returns-bind (index_perp_metadata dex_names all_perp_metas empty_index) _ (λ perps e.
      Returns-bind (index_spot_tokens spot) _ (λ tokens e1.
        Returns-bind (index_spot_metadata spot tokens perps) _ (λ index e2. Returns-ok (
          (index_spot_metadata-Resolves spot tokens perps
              ((index_perp_metadata-Resolves dex_names all_perp_metas).at perps e)).at
            index e2))))

-- Every market that `_build_metadata` indexed is found by `_market_info` under its own coin, with its
-- asset id and the size decimals indexed for that id; outcome coins are looked up apart.
pub market_info-build_metadata :
    (dex_names : List String) (all_perp_metas : List JsonObject) (spot : JsonObject)
    (snapshot : MetadataSnapshot) (coin : String) (asset : ℤ)
    → build_metadata dex_names all_perp_metas spot ≡ ok snapshot
    → get coin snapshot.asset_by_coin ≡ some asset
    → is_outcome_coin coin ≡ false
    → (info : MarketInfo) × (market_info snapshot coin ≡ ok info)
      × (info.coin ≡ coin)
      × (info.asset ≡ asset)
      × (get asset snapshot.size_decimals_by_asset ≡ some info.size_decimals)
unfolding market_info outcome_market_info indexed_market_info
market_info-build_metadata dex_names all_perp_metas spot snapshot coin asset built found plain =
    let (alias, (decimals, sized)) =
      ((build_metadata-Resolves dex_names all_perp_metas spot).at snapshot built).at coin asset
        found in
    let info : MarketInfo = record {
      coin = coin;
      asset = asset;
      size_decimals = decimals;
      is_spot = contains coin snapshot.spot_market_coins;
      dex = elim (get coin snapshot.perp_context_by_coin) [ none ↦ "" | some context ↦ context.0 ];
    } in
    (info, rw (plain, alias, found, sized) refl, refl, refl, sized)
