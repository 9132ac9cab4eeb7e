-- ===== src/Info/Market.antt =====
-- src/async_hyperliquid/info.py: the endpoints about markets and their metadata.
use async_hyperliquid.Prelude.{
  String, Option, none, some, List, [], ◌∷◌, ◌++◌, string_eq, nat_eq, ℤ, int_eq,
}
use async_hyperliquid.Result.{protocol_error, Result, err, ok, or_raise}
use async_hyperliquid.Json.{JsonValue, null, int, str, obj, JsonObject, fields, member}
use async_hyperliquid.World.{Externals}
use async_hyperliquid.World.Exec.{Exec, lift, ◌>>=◌}
use async_hyperliquid.Info.{expect_object, expect_optional_object, expect_list, expect_pair}
use async_hyperliquid.Info.Client.{InfoClient, optional_int, ask_for}

-- `[_expect_object(meta, ...) for meta in metas]`
unfoldable pub expect_objects : List JsonValue → String → Result (List JsonObject)
expect_objects [] t = ok []
expect_objects (value ∷ values) t =
    let rest = expect_objects values t in
    elim (expect_object value t) [
      | ok o ↦ elim rest [ ok os ↦ ok (o ∷ os) | err e ↦ err e ]
      | err e ↦ err e
    ]

-- `all(isinstance(entry, str) for entry in entries)`
unfoldable pub texts : List JsonValue → Option (List String)
texts [] = some []
texts (str s ∷ rest) = elim (texts rest) [ none ↦ none | some ts ↦ some (s ∷ ts) ]
texts (_ ∷ rest) = none

-- The names of the dexes; `null` is the base dex.
unfoldable pub dex_names : List JsonValue → Result (List String)
dex_names [] = ok []
dex_names (dex ∷ dexs) =
    let rest = dex_names dexs in
    elim (dex_name dex) [
      | ok name ↦ elim rest [ ok names ↦ ok (name ∷ names) | err e ↦ err e ]
      | err e ↦ err e
    ]
  where
    named : Option JsonValue → Result String
    named (some (str name)) = ok name
    named _ = err (protocol_error "perpDexs contains a malformed name")

    dex_name : JsonValue → Result String
    dex_name null = ok ""
    dex_name (obj o) = named (member "name" o)
    dex_name _ = err (protocol_error "perpDexs contains malformed metadata")

module _ (x : Externals) (i : InfoClient) where
  unfoldable pub all_mids : String → Exec JsonObject
  all_mids dex = ask_for x i expect_object "allMids" (("dex", str dex) ∷ [])

  unfoldable pub l2_book : String → Option ℤ → Option ℤ → Exec JsonObject
  l2_book coin n_sig_figs mantissa = ask_for x i expect_object "l2Book" (
      ("coin", str coin) ∷ (optional_int "nSigFigs" n_sig_figs ++ optional_int "mantissa" mantissa))

  -- `interval` is the value of a `CandleInterval`.
  unfoldable pub candles : String → String → ℤ → ℤ → Exec (List JsonValue)
  candles coin interval start_time end_time = ask_for x i expect_list "candleSnapshot" (
      (
        "req",
        obj (
            fields (
              ("coin", str coin)
              ∷ (("interval", str interval)
                  ∷ (("startTime", int start_time) ∷ (("endTime", int end_time) ∷ []))))),
      )
      ∷ [])

  unfoldable pub aligned_quote_token_info : ℤ → Exec JsonObject
  aligned_quote_token_info token_index =
      ask_for x i expect_object "alignedQuoteTokenInfo" (("token", int token_index) ∷ [])

  unfoldable pub perp_meta : String → Exec JsonObject
  perp_meta dex = ask_for x i expect_object "meta" (("dex", str dex) ∷ [])

  unfoldable pub perp_meta_and_contexts : String → Exec (JsonObject × List JsonValue)
  perp_meta_and_contexts dex = ask_for x i expect_pair "metaAndAssetCtxs" (("dex", str dex) ∷ [])

  unfoldable pub all_perp_metas : Exec (List JsonObject)
  all_perp_metas = do
    metas ← ask_for x i expect_list "allPerpMetas" []
    lift (expect_objects metas "allPerpMetas")

  unfoldable pub perp_dexes : Exec (List JsonValue)
  perp_dexes = ask_for x i expect_list "perpDexs" []

  unfoldable pub funding_history : String → ℤ → Option ℤ → Exec (List JsonValue)
  funding_history coin start_time end_time =
      ask_for x i expect_list "fundingHistory"
        (("coin", str coin) ∷ (("startTime", int start_time) ∷ optional_int "endTime" end_time))

  unfoldable pub predicted_fundings : Exec (List JsonValue)
  predicted_fundings = ask_for x i expect_list "predictedFundings" []

  unfoldable pub perps_at_open_interest_cap : Exec (List String)
  perps_at_open_interest_cap = do
    entries ← ask_for x i expect_list "perpsAtOpenInterestCap" []
    lift (
        or_raise (texts entries)
          (protocol_error "perpsAtOpenInterestCap response must contain strings"))

  unfoldable pub perp_deploy_auction_status : Exec JsonObject
  perp_deploy_auction_status = ask_for x i expect_object "perpDeployAuctionStatus" []

  unfoldable pub spot_meta : Exec JsonObject
  spot_meta = ask_for x i expect_object "spotMeta" []

  unfoldable pub spot_meta_and_contexts : Exec (JsonObject × List JsonValue)
  spot_meta_and_contexts = ask_for x i expect_pair "spotMetaAndAssetCtxs" []

  unfoldable pub token_details : String → Exec (Option JsonObject)
  token_details token_id =
      ask_for x i expect_optional_object "tokenDetails" (("tokenId", str token_id) ∷ [])

  unfoldable pub perp_dex_names : Exec (List String)
  perp_dex_names = do dexs ← perp_dexes; lift (dex_names dexs)
