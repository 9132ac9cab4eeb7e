-- ===== src/Info/Lookups.antt =====
-- The lookups and the prices of the info client only ask.
use async_hyperliquid.Prelude.{
  String, ◌≡◌, refl, Option, none, some, List, [], ◌∷◌, string_eq, nat_eq, int_eq,
}
use async_hyperliquid.Result.{Result, err, ok}
use async_hyperliquid.Json.{JsonValue, str, member}
use async_hyperliquid.Metadata.{MarketInfo, MetadataSnapshot}
use async_hyperliquid.World.{Externals}
use async_hyperliquid.Exchange.Effects.{nonce_of}
use async_hyperliquid.Info.{expect_object, expect_list, expect_pair}
use async_hyperliquid.Info.Client.{InfoClient, query, ask, ask_for}
use async_hyperliquid.Info.Market.{
  all_mids, perp_meta_and_contexts, all_perp_metas, perp_dexes, spot_meta, spot_meta_and_contexts,
  perp_dex_names,
}
use async_hyperliquid.Info.Account.{perp_account_state}
use async_hyperliquid.Info.Metadata.{
  is_caught, reloaded, loading_tasks, load_metadata, refresh_metadata, ensured, ensure_metadata,
  reload, metadata_for, market_of, market_infos, asset_id, spot_token_metadata,
}
use async_hyperliquid.Info.Prices.{
  spot_mark_price, perp_mark_price, mark_price, mid_prices, positions,
}
use async_hyperliquid.Info.Queries.{
  IsQuery, Queries-trans, IsQuery-pure, IsQuery-raise, IsQuery-lift, IsQuery-gets, IsQuery-bind,
  IsQuery-if, IsQuery-publish, IsQuery-post_json, IsQuery-wait_for_tasks, All-map-IsQuery,
}

module _ (x : Externals) (i : InfoClient) where
  ask_for-IsQuery {ℓ} :
      {A : Type ℓ} (read : JsonValue → String → Result A) (t : String)
      (rest : List (String × JsonValue))
      → nonce_of (query t rest) ≡ none
      → IsQuery i.info_url (ask_for x i read t rest)
  unfolding ask_for ask
  ask_for-IsQuery read t rest h =
      IsQuery-bind _ _ (IsQuery-post_json x (query t rest) h) (λ value. IsQuery-lift (read value t))

  perp_dex_names-IsQuery : IsQuery i.info_url (perp_dex_names x i)
  unfolding perp_dex_names perp_dexes nonce_of member
  perp_dex_names-IsQuery =
      IsQuery-bind _ _ (ask_for-IsQuery expect_list "perpDexs" [] refl) (λ dexs. IsQuery-lift _)

  all_perp_metas-IsQuery : IsQuery i.info_url (all_perp_metas x i)
  unfolding all_perp_metas nonce_of member
  all_perp_metas-IsQuery =
      IsQuery-bind _ _ (ask_for-IsQuery expect_list "allPerpMetas" [] refl)
        (λ metas. IsQuery-lift _)

  spot_meta-IsQuery : IsQuery i.info_url (spot_meta x i)
  unfolding spot_meta nonce_of member
  spot_meta-IsQuery = ask_for-IsQuery expect_object "spotMeta" [] refl

  pub load_metadata-IsQuery : IsQuery i.info_url (load_metadata x i)
  unfolding load_metadata loading_tasks
  load_metadata-IsQuery =
      IsQuery-bind _ _
        (IsQuery-wait_for_tasks x _ (
          IsQuery-bind _ _ perp_dex_names-IsQuery (λ ns. IsQuery-pure _),
          (
            IsQuery-bind _ _ all_perp_metas-IsQuery (λ ps. IsQuery-pure _),
            (IsQuery-bind _ _ spot_meta-IsQuery (λ s. IsQuery-pure _), tt),
          ),
        ))
        (λ results. IsQuery-lift _)

  pub refresh_metadata-IsQuery : IsQuery i.info_url (refresh_metadata x i)
  unfolding refresh_metadata
  refresh_metadata-IsQuery = IsQuery-bind _ _ load_metadata-IsQuery (λ s. IsQuery-publish s)

  ensured-IsQuery : (o : Option MetadataSnapshot) → IsQuery i.info_url (ensured x i o)
  ensured-IsQuery (some snapshot) = IsQuery-pure snapshot
  ensured-IsQuery none =
      IsQuery-bind _ _ load_metadata-IsQuery
        (λ s. IsQuery-bind _ _ (IsQuery-publish s) (λ u. IsQuery-pure s))

  reloaded-IsQuery :
      (stale : MetadataSnapshot) (r : Result MetadataSnapshot)
      → IsQuery i.info_url (reloaded stale r)
  reloaded-IsQuery stale (ok fresh) =
      IsQuery-bind _ _ (IsQuery-publish fresh) (λ u. IsQuery-pure fresh)
  reloaded-IsQuery stale (err e) =
      IsQuery-if (is_caught e) _ _ (IsQuery-pure stale) (IsQuery-raise e)

  reload-IsQuery : (stale : MetadataSnapshot) → IsQuery i.info_url (reload x i stale)
  unfolding reload
  reload-IsQuery stale = record {
    at = λ w.
        Queries-trans (load_metadata-IsQuery.at w)
          ((reloaded-IsQuery stale (load_metadata x i w).0).at (load_metadata x i w).1);
  }

  pub metadata_for-IsQuery : (coins : List String) → IsQuery i.info_url (metadata_for x i coins)
  unfolding metadata_for ensure_metadata
  metadata_for-IsQuery coins = IsQuery-bind _ _ (IsQuery-gets _) (λ cold.
      IsQuery-bind _ _ (IsQuery-bind _ _ (IsQuery-gets _) ensured-IsQuery)
        (λ snapshot. IsQuery-if _ _ _ (IsQuery-pure snapshot) (reload-IsQuery snapshot)))

  pub market_of-IsQuery : (coin : String) → IsQuery i.info_url (market_of x i coin)
  unfolding market_of
  market_of-IsQuery coin = IsQuery-bind _ _ (metadata_for-IsQuery (coin ∷ [])) (λ s. IsQuery-lift _)

  pub market_infos-IsQuery : (coins : List String) → IsQuery i.info_url (market_infos x i coins)
  unfolding market_infos
  market_infos-IsQuery coins = IsQuery-bind _ _ (metadata_for-IsQuery coins) (λ s. IsQuery-lift _)

  pub asset_id-IsQuery : (coin : String) → IsQuery i.info_url (asset_id x i coin)
  unfolding asset_id
  asset_id-IsQuery coin = IsQuery-bind _ _ (market_of-IsQuery coin) (λ m. IsQuery-pure _)

  pub spot_token_metadata-IsQuery :
      (coin : String) → IsQuery i.info_url (spot_token_metadata x i coin)
  unfolding spot_token_metadata
  spot_token_metadata-IsQuery coin =
      IsQuery-bind _ _ (metadata_for-IsQuery (coin ∷ [])) (λ s. IsQuery-lift _)

  spot_mark_price-IsQuery : (name : String) → IsQuery i.info_url (spot_mark_price x i name)
  unfolding spot_mark_price spot_meta_and_contexts nonce_of member
  spot_mark_price-IsQuery name =
      IsQuery-bind _ _ (ask_for-IsQuery expect_pair "spotMetaAndAssetCtxs" [] refl)
        (λ pair. IsQuery-lift _)

  perp_mark_price-IsQuery :
      (s : MetadataSnapshot) (coin name : String)
      → IsQuery i.info_url (perp_mark_price x i s coin name)
  unfolding perp_mark_price perp_meta_and_contexts nonce_of member
  perp_mark_price-IsQuery s coin name = IsQuery-bind _ _ (IsQuery-lift _) (λ context.
      IsQuery-bind _ _
        (ask_for-IsQuery expect_pair "metaAndAssetCtxs" (("dex", str context.0) ∷ []) refl)
        (λ pair. IsQuery-lift _))

  pub mark_price-IsQuery : (coin : String) → IsQuery i.info_url (mark_price x i coin)
  unfolding mark_price
  mark_price-IsQuery coin = IsQuery-bind _ _ (metadata_for-IsQuery (coin ∷ [])) (λ s.
      IsQuery-bind _ _ (IsQuery-lift _) (λ name.
        IsQuery-if _ _ _ (spot_mark_price-IsQuery name) (perp_mark_price-IsQuery s coin name)))

  all_mids-IsQuery : (dex : String) → IsQuery i.info_url (all_mids x i dex)
  unfolding all_mids nonce_of member
  all_mids-IsQuery dex = ask_for-IsQuery expect_object "allMids" (("dex", str dex) ∷ []) refl

  pub mid_prices-IsQuery : (markets : List MarketInfo) → IsQuery i.info_url (mid_prices x i markets)
  unfolding mid_prices
  mid_prices-IsQuery [] = IsQuery-pure []
  mid_prices-IsQuery (market ∷ markets) =
      IsQuery-bind _ _
        (IsQuery-wait_for_tasks x _ (All-map-IsQuery (all_mids x i) all_mids-IsQuery _))
        (λ mids. IsQuery-lift _)

  perp_account_state-IsQuery :
      (user dex : String) → IsQuery i.info_url (perp_account_state x i user dex)
  unfolding perp_account_state nonce_of member
  perp_account_state-IsQuery user dex =
      ask_for-IsQuery expect_object "clearinghouseState"
        (("user", str user) ∷ (("dex", str dex) ∷ [])) refl

  pub positions-IsQuery :
      (user : String) (dexs : List String) → IsQuery i.info_url (positions x i user dexs)
  unfolding positions
  positions-IsQuery user dexs =
      IsQuery-bind _ _
        (IsQuery-wait_for_tasks x _
          (All-map-IsQuery (perp_account_state x i user) (perp_account_state-IsQuery user) _))
        (λ states. IsQuery-lift _)
