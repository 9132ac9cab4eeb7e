-- ===== src/Types/OrderReplies.antt =====
-- src/async_hyperliquid/types/info.py: prices, orders, fills, books and candles.
use async_hyperliquid.Prelude.{ℕ, zero, suc}
use async_hyperliquid.Types.{
  Schema, never, text, integer, boolean, nothing, exactly, either, list_of, dict_of, typed_dict,
  Keys, no_more, required, optional, inherit,
}

abbrev pub all_mids_type : Schema
all_mids_type = dict_of text

abbrev pub open_order_keys : Keys
open_order_keys = required "coin" text (
    required "limitPx" text (
      required "oid" integer (
        required "origSz" text (
          required "side" (either (exactly "A") (exactly "B"))
            (required "sz" text (required "timestamp" integer no_more))))))

abbrev pub open_order_type : Schema
open_order_type = typed_dict open_order_keys

abbrev frontend_order_keys : Schema → Keys
frontend_order_keys self = inherit open_order_keys (
    required "children" (list_of self) (
      required "cloid" (either text nothing) (
        required "isPositionTpsl" boolean (
          required "isTrigger" boolean (
            required "orderType" text (
              required "reduceOnly" boolean (
                required "tif"
                  (either
                    (either (exactly "Alo")
                      (either (exactly "Gtc") (either (exactly "Ioc") (exactly "FrontendMarket"))))
                    nothing)
                  (required "triggerCondition" text (required "triggerPx" text no_more)))))))))

-- An order with children of its own, nested `depth` deep at most.
abbrev pub frontend_order_type : ℕ → Schema
frontend_order_type zero = typed_dict (frontend_order_keys never)
frontend_order_type (suc depth) = typed_dict (frontend_order_keys (frontend_order_type depth))

abbrev pub open_orders_type : Schema
open_orders_type = list_of open_order_type

abbrev pub frontend_open_orders_type : ℕ → Schema
frontend_open_orders_type depth = list_of (frontend_order_type depth)

abbrev pub user_fill_type : Schema
user_fill_type = typed_dict (
    optional "builderFee" text (
      required "closedPnl" text (
        required "coin" text (
          required "crossed" boolean (
            required "dir" text (
              required "fee" text (
                required "feeToken" text (
                  required "hash" text (
                    required "oid" integer (
                      required "px" text (
                        required "side" (either (exactly "A") (exactly "B")) (
                          required "startPosition" text (
                            required "sz" text (
                              required "tid" integer (required "time" integer no_more)))))))))))))))

abbrev pub user_fills_type : Schema
user_fills_type = list_of user_fill_type

abbrev pub extra_agent_type : Schema
extra_agent_type =
    typed_dict
      (required "name" text (required "address" text (required "validUntil" integer no_more)))

abbrev pub extra_agents_type : Schema
extra_agents_type = list_of extra_agent_type

abbrev pub user_rate_limit_type : Schema
user_rate_limit_type = typed_dict (
    required "cumVlm" text (
      required "nRequestsUsed" integer
        (required "nRequestsCap" integer (required "nRequestsSurplus" integer no_more))))

abbrev pub order_status_value_type : Schema
order_status_value_type = either (exactly "open") (
    either (exactly "filled") (
      either (exactly "canceled") (
        either (exactly "triggered") (
          either (exactly "rejected") (
            either (exactly "marginCanceled") (
              either (exactly "vaultWithdrawalCanceled") (
                either (exactly "openInterestCapCanceled") (
                  either (exactly "selfTradeCanceled") (
                    either (exactly "reduceOnlyCanceled") (
                      either (exactly "siblingFilledCanceled") (
                        either (exactly "delistedCanceled") (
                          either (exactly "liquidatedCanceled") (
                            either (exactly "scheduledCancel") (
                              either (exactly "tickRejected") (
                                either (exactly "minTradeNtlRejected") (
                                  either (exactly "perpMarginRejected") (
                                    either (exactly "reduceOnlyRejected") (
                                      either (exactly "badAloPxRejected") (
                                        either (exactly "iocCancelRejected") (
                                          either (exactly "badTriggerPxRejected") (
                                            either (exactly "marketOrderNoLiquidityRejected") (
                                              either
                                                (exactly
                                                  "positionIncreaseAtOpenInterestCapRejected")
                                                (either
                                                  (exactly "positionFlipAtOpenInterestCapRejected")
                                                  (either
                                                    (exactly
                                                      "tooAggressiveAtOpenInterestCapRejected")
                                                    (either (exactly "openInterestIncreaseRejected")
                                                      (either
                                                        (exactly "insufficientSpotBalanceRejected")
                                                        (either (exactly "oracleRejected") (
                                                          exactly
                                                            "perpMaxPositionRejected"))))))))))))))))))))))))))))

abbrev pub order_status_data_type : ℕ → Schema
order_status_data_type depth = typed_dict (
    required "order" (frontend_order_type depth)
      (required "status" order_status_value_type (required "statusTimestamp" integer no_more)))

abbrev pub known_order_status_type : ℕ → Schema
known_order_status_type depth =
    typed_dict (
      required "status" (exactly "order") (required "order" (order_status_data_type depth) no_more))

abbrev pub unknown_order_status_type : Schema
unknown_order_status_type = typed_dict (required "status" (exactly "unknownOid") no_more)

abbrev pub order_status_type : ℕ → Schema
order_status_type depth = either (known_order_status_type depth) unknown_order_status_type

abbrev pub l2_level_type : Schema
l2_level_type = typed_dict (required "px" text (required "sz" text (required "n" integer no_more)))

abbrev pub l2_book_type : Schema
l2_book_type = typed_dict (
    required "coin" text
      (required "time" integer (required "levels" (list_of (list_of l2_level_type)) no_more)))

abbrev pub candle_type : Schema
candle_type = typed_dict (
    required "T" integer (
      required "c" text (
        required "h" text (
          required "i" text (
            required "l" text (
              required "n" integer (
                required "o" text
                  (required "s" text (required "t" integer (required "v" text no_more))))))))))

abbrev pub candles_type : Schema
candles_type = list_of candle_type

abbrev pub historical_order_type : ℕ → Schema
historical_order_type depth = typed_dict (
    required "order" (frontend_order_type depth)
      (required "status" order_status_value_type (required "statusTimestamp" integer no_more)))

abbrev pub historical_orders_type : ℕ → Schema
historical_orders_type depth = list_of (historical_order_type depth)

abbrev pub twap_slice_fill_type : Schema
twap_slice_fill_type =
    typed_dict (required "fill" user_fill_type (required "twapId" integer no_more))

abbrev pub twap_slice_fills_type : Schema
twap_slice_fills_type = list_of twap_slice_fill_type
