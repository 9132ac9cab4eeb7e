-- ===== src/Info/Metadata.antt =====
-- src/async_hyperliquid/info.py: the cached metadata and the lookups that use it. A method runs to its
-- end before the next one here, so the lock is free whenever it is taken and the snapshot that was
-- read is still the published one.
use async_hyperliquid.Prelude.{
  String, Bool, true, false, ◌||◌, Option, none, some, List, [], ◌∷◌, if◌then◌else◌, string_eq,
  nat_eq, all, ℤ, int_eq,
}
use async_hyperliquid.Result.{
  Error, http_error, protocol_error, indeterminate_action_error, value_error, runtime_error,
  timeout_error, other, Result, err, ok, or_raise,
}
use async_hyperliquid.Dict.{get}
use async_hyperliquid.Json.{JsonObject}
use async_hyperliquid.Metadata.{MarketInfo, SpotToken, MetadataSnapshot}
use async_hyperliquid.Metadata.Spot.{build_metadata}
use async_hyperliquid.Metadata.Lookup.{is_known_coin, about, market_info}
use async_hyperliquid.World.{Externals}
use async_hyperliquid.World.Exec.{Exec, pure, raise, lift, gets, modify, ◌>>=◌, ◌>>◌}
use async_hyperliquid.Info.Client.{InfoClient}
use async_hyperliquid.Info.Market.{all_perp_metas, spot_meta, perp_dex_names}
use async_hyperliquid.Info.Tasks.{wait_for_tasks}

-- What one of the three loading tasks gives.
pub data Loaded : Type 0 where
  names : List String → Loaded
  perps : List JsonObject → Loaded
  spots : JsonObject → Loaded

-- `_build_metadata` of the three results
unfoldable pub built : List Loaded → Result MetadataSnapshot
built (names ns ∷ (perps ps ∷ (spots s ∷ []))) = build_metadata ns ps s
built _ = err other

-- `except (HyperliquidError, TimeoutError)`
abbrev pub is_caught : Error → Bool
is_caught (http_error status) = true
is_caught (protocol_error message) = true
is_caught (indeterminate_action_error t n) = true
is_caught timeout_error = true
is_caught (value_error message) = false
is_caught (runtime_error message) = false
is_caught other = false

abbrev pub publish : MetadataSnapshot → Exec (Unit {0})
publish snapshot = modify (λ w. record w { metadata = some snapshot })

abbrev pub is_cold : Option MetadataSnapshot → Bool
is_cold none = true
is_cold (some snapshot) = false

-- The reload after a miss; a failure that is caught keeps the snapshot.
abbrev pub reloaded : MetadataSnapshot → Result MetadataSnapshot → Exec MetadataSnapshot
reloaded stale (ok fresh) = do publish fresh; pure fresh
reloaded stale (err e) = if is_caught e then pure stale else raise e

abbrev pub infos_in : MetadataSnapshot → List String → Result (List MarketInfo)
infos_in snapshot [] = ok []
infos_in snapshot (coin ∷ coins) =
    let rest = infos_in snapshot coins in
    elim (market_info snapshot coin) [
      | ok market ↦ elim rest [ ok markets ↦ ok (market ∷ markets) | err e ↦ err e ]
      | err e ↦ err e
    ]

abbrev pub token_in : MetadataSnapshot → String → Option SpotToken
token_in snapshot coin = elim (get coin snapshot.coin_by_alias) [
  | none ↦ none
  | some name ↦ get name snapshot.spot_token_by_coin
]

module _ (x : Externals) (i : InfoClient) where
  -- The three tasks.
  unfoldable pub loading_tasks : List (Exec Loaded)
  loading_tasks =
      (do ns ← perp_dex_names x i; pure (names ns))
      ∷ ((do ps ← all_perp_metas x i; pure (perps ps))
          ∷ ((do s ← spot_meta x i; pure (spots s)) ∷ []))

  unfoldable pub load_metadata : Exec MetadataSnapshot
  load_metadata = do results ← wait_for_tasks x loading_tasks; lift (built results)

  unfoldable pub refresh_metadata : Exec (Unit {0})
  refresh_metadata = do snapshot ← load_metadata; publish snapshot

  abbrev pub ensured : Option MetadataSnapshot → Exec MetadataSnapshot
  ensured (some snapshot) = pure snapshot
  ensured none = do snapshot ← load_metadata; publish snapshot; pure snapshot

  unfoldable pub ensure_metadata : Exec MetadataSnapshot
  ensure_metadata = do published ← gets (λ w. w.metadata); ensured published

  unfoldable pub reload : MetadataSnapshot → Exec MetadataSnapshot
  reload stale w = let loaded = load_metadata w in reloaded stale loaded.0 loaded.1

  unfoldable pub metadata_for : List String → Exec MetadataSnapshot
  metadata_for coins = do
    cold ← gets (λ w. is_cold w.metadata)
    snapshot ← ensure_metadata
    if cold || all (is_known_coin snapshot) coins then pure snapshot else reload snapshot

  unfoldable pub coin_name : String → Exec String
  coin_name coin = do
    snapshot ← metadata_for (coin ∷ [])
    lift (or_raise (get coin snapshot.coin_by_alias) (value_error (about "unknown coin: " coin)))

  unfoldable pub coin_symbol : String → Exec String
  coin_symbol coin = do
    snapshot ← metadata_for (coin ∷ [])
    name ←
        lift
          (or_raise (get coin snapshot.coin_by_alias) (value_error (about "unknown coin: " coin)))
    lift (
        or_raise (get name snapshot.symbol_by_coin)
          (value_error (about "coin has no market symbol: " coin)))

  -- `_market_info` and `_market_infos`
  unfoldable pub market_of : String → Exec MarketInfo
  market_of coin = do snapshot ← metadata_for (coin ∷ []); lift (market_info snapshot coin)

  unfoldable pub market_infos : List String → Exec (List MarketInfo)
  market_infos coins = do snapshot ← metadata_for coins; lift (infos_in snapshot coins)

  unfoldable pub asset_id : String → Exec ℤ
  asset_id coin = do market ← market_of coin; pure market.asset

  unfoldable pub size_decimals : String → Exec ℤ
  size_decimals coin = do market ← market_of coin; pure market.size_decimals

  unfoldable pub spot_token_metadata : String → Exec SpotToken
  spot_token_metadata coin = do
    snapshot ← metadata_for (coin ∷ [])
    lift (or_raise (token_in snapshot coin) (value_error (about "unknown spot token: " coin)))

  unfoldable pub token_id : String → Exec String
  token_id coin = do token ← spot_token_metadata coin; pure token.token_id
