-- ===== src/Examples/Typed.antt =====
-- Methods run by their declared types.
use async_hyperliquid.Prelude.{
  ◌≡◌, refl, inr, true, false, none, List, [], ◌∷◌, string_eq, nat_eq, All, pos, int_eq,
}
use async_hyperliquid.Result.{ok}
use async_hyperliquid.Json.{
  JsonValue, null, int, str, obj, JsonObject, field, items, array, fields, member,
}
use async_hyperliquid.World.{open_, json, response, Externals}
use async_hyperliquid.Order.{na, EncodedOrderType, EncodedOrder}
use async_hyperliquid.Response.{ResponseType}
use async_hyperliquid.Response.Typed.{reply_type}
use async_hyperliquid.Exchange.Commands.{trade, transfer, run}
use async_hyperliquid.Exchange.Commands.Trade.{TradeCommand}
use async_hyperliquid.Exchange.Commands.Transfer.{usd}
use async_hyperliquid.Exchange.Typed.{IsTyped}
use async_hyperliquid.Exchange.Typed.Methods.{run-IsTyped}
use async_hyperliquid.Types.{has_type, has_keys}
use async_hyperliquid.Examples.{one_and_half, example_externals, example_config, example_world}
use async_hyperliquid.Info.Client.{InfoClient}
use async_hyperliquid.Info.Typed.Market.{mids_of_dex}
use async_hyperliquid.Info.Typed.Endpoints.{market, run_query, run_query-returns}
use async_hyperliquid.Exchange.Signed.{guarded, run-guarded}
use async_hyperliquid.Info.Prices.{positions_in}
use async_hyperliquid.Info.Typed.Positions.{IsTypedPosition, positions_in-typed}

-- A limit order as it is encoded.
abbrev encoded_limit : EncodedOrder
encoded_limit = record {
  a = pos 0;
  b = true;
  p = "100";
  s = "1";
  r = false;
  t = EncodedOrderType.limit "Gtc";
  c = none;
}

run-IsTyped_example : IsTyped (reply_type ResponseType.order) (
    run example_externals example_config
      (trade (TradeCommand.orders (encoded_limit ∷ []) na none none)))
run-IsTyped_example =
    run-IsTyped example_externals example_config
      (trade (TradeCommand.orders (encoded_limit ∷ []) na none none)) (inr (inr refl), tt)

abbrev info_client : InfoClient
info_client = record { info_url = "https://api.hyperliquid.xyz/info"; owns_transport = true }

-- Two mids, as allMids has them.
abbrev two_mids : JsonValue
two_mids = obj (field "BTC" (str "100000.5") (field "ETH" (str "3500") JsonObject.end))

abbrev answering : JsonValue → Externals
answering v = record example_externals { outcome = λ k request. response 200 (json v) }

run_query-returns_example :
    (run_query (answering two_mids) info_client (market (mids_of_dex "")) (example_world open_)).0
    ≡ ok two_mids
run_query-returns_example =
    run_query-returns (answering two_mids) info_client (example_world open_) two_mids 0
      (market (mids_of_dex ""))
      (record { open_state = refl; live_session = refl; reply = λ request. refl }) tt
      (unfold has_type in refl)

run-guarded_example :
    run
      (guarded example_externals)
      example_config
      (transfer (usd one_and_half "0xbb"))
      (example_world open_)
    ≡ run example_externals example_config
        (transfer (usd one_and_half "0xbb"))
        (example_world open_)
run-guarded_example =
    run-guarded example_externals example_config (example_world open_)
      (transfer (usd one_and_half "0xbb"))

abbrev margins : JsonValue
margins = obj (
    fields (
      ("accountValue", str "1")
      ∷ (("totalMarginUsed", str "0")
          ∷ (("totalNtlPos", str "0") ∷ (("totalRawUsd", str "1") ∷ [])))))

abbrev btc_position : JsonObject
btc_position = fields (
    ("coin", str "BTC")
    ∷ ((
      "cumFunding",
      obj (
          fields
            (("allTime", str "1") ∷ (("sinceChange", str "0") ∷ (("sinceOpen", str "1") ∷ [])))),
    )
        ∷ (("entryPx", str "100000")
            ∷ (("leverage", obj (fields (("type", str "cross") ∷ (("value", int (pos 10)) ∷ []))))
                ∷ (("liquidationPx", null)
                    ∷ (("marginUsed", str "10")
                        ∷ (("maxLeverage", int (pos 40))
                            ∷ (("positionValue", str "100")
                                ∷ (("returnOnEquity", str "0.1")
                                    ∷ (("szi", str "0.001")
                                        ∷ (("unrealizedPnl", str "1") ∷ [])))))))))))

-- An account with one open position.
abbrev open_account : JsonObject
open_account = fields (
    (
      "assetPositions",
      array (obj (fields (("type", str "oneWay") ∷ (("position", obj btc_position) ∷ []))) ∷ []),
    )
    ∷ (("crossMaintenanceMarginUsed", str "0")
        ∷ (("crossMarginSummary", margins)
            ∷ (("marginSummary", margins)
                ∷ (("time", int (pos 1)) ∷ (("withdrawable", str "1") ∷ []))))))

positions_in-typed_example :
    (ps : List JsonObject) × (positions_in (open_account ∷ []) ≡ ok ps) × All IsTypedPosition ps
positions_in-typed_example =
    positions_in-typed (open_account ∷ []) (unfold has_type has_keys member items in (refl, tt))
