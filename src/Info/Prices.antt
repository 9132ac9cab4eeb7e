-- ===== src/Info/Prices.antt =====
-- src/async_hyperliquid/info.py: prices, account states and positions, gathered over the dexes.
use async_hyperliquid.Prelude.{
  String, Option, none, some, List, [], ◌∷◌, ◌++◌, map, if◌then◌else◌, string_eq, ◌==◌, nat_eq,
  contains, pos, int_eq,
}
use async_hyperliquid.Result.{protocol_error, value_error, other, Result, err, ok, or_raise}
use async_hyperliquid.Dict.{Dict, get, from_keys}
use async_hyperliquid.Json.{JsonValue, str, JsonObject, member, member_or_null}
use async_hyperliquid.Float.{Float, FloatOps}
use async_hyperliquid.Metadata.{MarketInfo, MetadataSnapshot}
use async_hyperliquid.Metadata.Lookup.{about}
use async_hyperliquid.World.{Externals}
use async_hyperliquid.World.Exec.{Exec, pure, lift, ◌>>=◌}
use async_hyperliquid.Info.{expect_object, expect_list, context_price, context_price_by_coin}
use async_hyperliquid.Info.Client.{InfoClient}
use async_hyperliquid.Info.Market.{all_mids, perp_meta_and_contexts, spot_meta_and_contexts}
use async_hyperliquid.Info.Account.{perp_account_state, spot_account_state}
use async_hyperliquid.Info.Metadata.{metadata_for, market_of}
use async_hyperliquid.Info.Tasks.{values, wait_for_tasks}

pub record AccountState : Type 0 where
  pub perp : JsonObject
  pub spot : JsonObject
  pub dexs : Dict String JsonObject

-- `mids_by_dex`
unfoldable pub zip_dexs {ℓ} : {A : Type ℓ} → List String → List A → Dict String A
zip_dexs [] as_ = []
zip_dexs (dex ∷ dexs) [] = []
zip_dexs (dex ∷ dexs) (a ∷ as_) = (dex, a) ∷ zip_dexs dexs as_

abbrev pub mid_text : Option JsonValue → Result String
mid_text (some (str s)) = ok s
mid_text _ = err (protocol_error "allMids is missing a string price")

-- The price of one market among the mids of its dex.
unfoldable pub mid_of : FloatOps → Dict String JsonObject → MarketInfo → Result Float
mid_of ops mids market =
    let found : Option JsonValue = elim (get market.dex mids) [
      | none ↦ none
      | some by_coin ↦ member market.coin by_coin
    ] in
    elim (mid_text found) [
      | ok s ↦ or_raise (ops.parse s) (protocol_error "allMids contains an invalid price")
      | err e ↦ err e
    ]

unfoldable pub mids_of : FloatOps → Dict String JsonObject → List MarketInfo → Result (List Float)
unfolding mid_of
mids_of ops mids [] = ok []
mids_of ops mids (market ∷ markets) =
    let rest = mids_of ops mids markets in
    elim (mid_of ops mids market) [
      | ok price ↦ elim rest [ ok prices ↦ ok (price ∷ prices) | err e ↦ err e ]
      | err e ↦ err e
    ]

-- `_expect_object(entry.get("position"), ...)`; a missing key reads as `None`
unfoldable pub position_of : JsonValue → Result JsonObject
position_of value = elim (expect_object value "assetPositions") [
  | ok entry ↦ expect_object (member_or_null "position" entry) "assetPositions position"
  | err e ↦ err e
]

unfoldable pub positions_of : List JsonValue → Result (List JsonObject)
unfolding position_of
positions_of [] = ok []
positions_of (value ∷ values) =
    let rest = positions_of values in
    elim (position_of value) [
      | ok p ↦ elim rest [ ok ps ↦ ok (p ∷ ps) | err e ↦ err e ]
      | err e ↦ err e
    ]

unfoldable pub positions_in : List JsonObject → Result (List JsonObject)
unfolding positions_of
positions_in [] = ok []
positions_in (state ∷ states) =
    let rest = positions_in states in
    elim (expect_list (member_or_null "assetPositions" state) "assetPositions") [
      | ok entries ↦ elim (positions_of entries) [
        | ok ps ↦ elim rest [ ok qs ↦ ok (ps ++ qs) | err e ↦ err e ]
        | err e ↦ err e
      ]
      | err e ↦ err e
    ]

-- `dex for dex in dexs if dex`
abbrev pub named_dexs : List String → List String
named_dexs [] = []
named_dexs (dex ∷ dexs) = if dex == "" then named_dexs dexs else dex ∷ named_dexs dexs

abbrev pub account_of : List String → List JsonObject → Result AccountState
account_of dexs (perp ∷ (spot ∷ rest)) =
    ok (record { perp = perp; spot = spot; dexs = zip_dexs dexs rest })
account_of dexs _ = err other

module _ (x : Externals) (i : InfoClient) where
  unfoldable pub spot_mark_price : String → Exec Float
  spot_mark_price name = do
    (_, contexts) ← spot_meta_and_contexts x i
    lift (context_price_by_coin x.floats contexts name "markPx" "spotMetaAndAssetCtxs")

  unfoldable pub perp_mark_price : MetadataSnapshot → String → String → Exec Float
  perp_mark_price snapshot coin name = do
    (dex, context_index) ← lift (
        or_raise (get name snapshot.perp_context_by_coin)
          (value_error (about "coin has no market context: " coin)))
    (_, contexts) ← perp_meta_and_contexts x i dex
    lift (context_price x.floats contexts (pos context_index) "markPx" "metaAndAssetCtxs")

  unfoldable pub mark_price : String → Exec Float
  mark_price coin = do
    snapshot ← metadata_for x i (coin ∷ [])
    name ←
        lift
          (or_raise (get coin snapshot.coin_by_alias) (value_error (about "unknown coin: " coin)))
    if contains name snapshot.spot_market_coins
        then spot_mark_price name
        else perp_mark_price snapshot coin name

  -- `_mid_prices`; no market asks for nothing
  unfoldable pub mid_prices : List MarketInfo → Exec (List Float)
  mid_prices [] = pure []
  mid_prices (market ∷ markets) = do
    let dexs = from_keys (map (λ (m : MarketInfo). m.dex) (market ∷ markets))
    mids ← wait_for_tasks x (map (all_mids x i) dexs)
    lift (mids_of x.floats (zip_dexs dexs mids) (market ∷ markets))

  abbrev first_price : List Float → Result Float
  first_price (price ∷ prices) = ok price
  first_price [] = err other

  unfoldable pub mid_price : String → Exec Float
  mid_price coin = do
    market ← market_of x i coin
    prices ← mid_prices (market ∷ [])
    lift (first_price prices)

  unfoldable pub account_state : String → List String → Exec AccountState
  account_state account_address dexs = do
    let additional = from_keys (named_dexs dexs)
    states ← wait_for_tasks x (
        perp_account_state x i account_address ""
        ∷ (spot_account_state x i account_address
            ∷ map (perp_account_state x i account_address) additional))
    lift (account_of additional states)

  unfoldable pub positions : String → List String → Exec (List JsonObject)
  positions account_address dexs = do
    states ← wait_for_tasks x (map (perp_account_state x i account_address) (from_keys dexs))
    lift (positions_in states)
