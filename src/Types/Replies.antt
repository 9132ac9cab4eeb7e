-- ===== src/Types/Replies.antt =====
-- src/async_hyperliquid/types/exchange.py: the replies of the exchange endpoint.
use async_hyperliquid.Types.{
  Schema, text, integer, exactly, either, list_of, typed_dict, no_more, required,
}

abbrev pub resting_order_status_type : Schema
resting_order_status_type = typed_dict (required "oid" integer no_more)

abbrev pub resting_status_type : Schema
resting_status_type = typed_dict (required "resting" resting_order_status_type no_more)

abbrev pub filled_order_status_type : Schema
filled_order_status_type =
    typed_dict (required "totalSz" text (required "avgPx" text (required "oid" integer no_more)))

abbrev pub filled_status_type : Schema
filled_status_type = typed_dict (required "filled" filled_order_status_type no_more)

abbrev pub error_status_type : Schema
error_status_type = typed_dict (required "error" text no_more)

abbrev pub order_status_tag_type : Schema
order_status_tag_type = either (exactly "waitingForFill") (exactly "waitingForTrigger")

abbrev pub order_status_type : Schema
order_status_type =
    either resting_status_type
      (either filled_status_type (either error_status_type order_status_tag_type))

abbrev pub cancel_status_type : Schema
cancel_status_type = either (exactly "success") error_status_type

abbrev pub order_response_data_type : Schema
order_response_data_type = typed_dict (required "statuses" (list_of order_status_type) no_more)

abbrev pub order_response_type : Schema
order_response_type =
    typed_dict
      (required "type" (exactly "order") (required "data" order_response_data_type no_more))

abbrev pub place_order_success_type : Schema
place_order_success_type =
    typed_dict (required "status" (exactly "ok") (required "response" order_response_type no_more))

abbrev pub cancel_response_data_type : Schema
cancel_response_data_type = typed_dict (required "statuses" (list_of cancel_status_type) no_more)

abbrev pub cancel_response_type : Schema
cancel_response_type =
    typed_dict
      (required "type" (exactly "cancel") (required "data" cancel_response_data_type no_more))

abbrev pub cancel_success_type : Schema
cancel_success_type =
    typed_dict (required "status" (exactly "ok") (required "response" cancel_response_type no_more))

abbrev pub twap_running_data_type : Schema
twap_running_data_type = typed_dict (required "twapId" integer no_more)

abbrev pub twap_running_status_type : Schema
twap_running_status_type = typed_dict (required "running" twap_running_data_type no_more)

abbrev pub twap_order_status_type : Schema
twap_order_status_type = either twap_running_status_type error_status_type

abbrev pub twap_order_response_data_type : Schema
twap_order_response_data_type = typed_dict (required "status" twap_order_status_type no_more)

abbrev pub twap_order_response_type : Schema
twap_order_response_type =
    typed_dict (
      required "type" (exactly "twapOrder") (required "data" twap_order_response_data_type no_more))

abbrev pub twap_order_success_type : Schema
twap_order_success_type =
    typed_dict
      (required "status" (exactly "ok") (required "response" twap_order_response_type no_more))

abbrev pub twap_cancel_response_data_type : Schema
twap_cancel_response_data_type = typed_dict (required "status" cancel_status_type no_more)

abbrev pub twap_cancel_response_type : Schema
twap_cancel_response_type = typed_dict (
    required "type" (exactly "twapCancel") (required "data" twap_cancel_response_data_type no_more))

abbrev pub twap_cancel_success_type : Schema
twap_cancel_success_type =
    typed_dict
      (required "status" (exactly "ok") (required "response" twap_cancel_response_type no_more))

abbrev pub default_response_type : Schema
default_response_type = typed_dict (required "type" (exactly "default") no_more)

abbrev pub default_success_type : Schema
default_success_type =
    typed_dict
      (required "status" (exactly "ok") (required "response" default_response_type no_more))

abbrev pub exchange_error_type : Schema
exchange_error_type =
    typed_dict (required "status" (exactly "err") (required "response" text no_more))

abbrev pub place_order_response_type : Schema
place_order_response_type = either place_order_success_type exchange_error_type

abbrev pub cancel_order_response_type : Schema
cancel_order_response_type = either cancel_success_type exchange_error_type

abbrev pub place_twap_response_type : Schema
place_twap_response_type = either twap_order_success_type exchange_error_type

abbrev pub cancel_twap_response_type : Schema
cancel_twap_response_type = either twap_cancel_success_type exchange_error_type

abbrev pub default_action_response_type : Schema
default_action_response_type = either default_success_type exchange_error_type

abbrev pub action_response_type : Schema
action_response_type = either place_order_success_type (
    either cancel_success_type (
      either twap_order_success_type
        (either twap_cancel_success_type default_action_response_type)))
