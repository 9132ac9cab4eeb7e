-- ===== src/Examples/Facade.antt =====
-- The facade at work: a limit order placed, a market order priced, a batch refused, a position closed.
use mathlib.Core.List.{Memᴰ}
use async_hyperliquid.Text.{char_eq, digit_char, print, print_padded, rstrip}
use async_hyperliquid.Metadata.Lookup.{
  is_outcome_coin, is_known_coin, outcome_market_info, indexed_market_info, market_info,
}
use async_hyperliquid.Prelude.{
  String, ◌≡◌, refl, ◌↔◌, inr, Bool, true, false, none, some, List, [], ◌∷◌, map, string_eq, nat_eq,
  is_empty, All, pos, negsuc, int_eq,
}
use async_hyperliquid.Result.{Error, value_error, err, ok}
use async_hyperliquid.Float.{Float, finite, float_le, is_zero, is_integer, FloatOps}
use async_hyperliquid.Json.{JsonValue, str, obj, JsonObject, field, items, array, member}
use async_hyperliquid.Dict.{Dict, get, put}
use async_hyperliquid.Metadata.{MarketInfo}
use async_hyperliquid.Metadata.Perps.{put_perp}
use async_hyperliquid.World.{open_, json, response, Externals, World}
use async_hyperliquid.World.Exec.{pure, lift, gets, modify, ◌>>=◌, fail_if}
use async_hyperliquid.Transport.{read_outcome, post, post_json}
use async_hyperliquid.Order.{
  ioc, na, normal_tpsl, OrderType, PlaceOrderRequest, EncodedOrderType, EncodedOrder,
}
use async_hyperliquid.Signing.{
  to_bytes8, vault_bytes, expiry_bytes, action_data, hash_action, sign_exchange_action,
}
use async_hyperliquid.Encoding.{
  wire_float, normalize_size, normalize_price, encode_order_type, encode_order,
}
use async_hyperliquid.Response.{
  is_error_status, is_order_status, check_statuses, check_data, check_acknowledgement, check_ok,
  expect_action_response,
}
use async_hyperliquid.Exchange.{
  execution_address, envelope, next_nonce, exchange_reply, post_envelope, submit_action,
}
use async_hyperliquid.Exchange.Trading.{submit_orders}
use async_hyperliquid.Exchange.Encode.{order_type_json, order_json}
use async_hyperliquid.Exchange.Nonces.{none_sent, HasFreshNonces}
use async_hyperliquid.Info.Metadata.{ensure_metadata, metadata_for, market_infos}
use async_hyperliquid.Info.Prices.{mid_prices}
use async_hyperliquid.Client.{
  AsyncHyperliquid, default_slippage, market_price, is_outcome_market, validate_order,
  validate_each, validate_group, validate_orders, validate_builder, market_order, encode_orders,
}
use async_hyperliquid.Client.Orders.{
  mixes_venues, first_is_spot, markets_to_price, price_orders, coins_of, place_orders,
}
use async_hyperliquid.Client.Positions.{read_position, read_positions, size_of, closing_orders}
use async_hyperliquid.Client.Effects.{Serves}
use async_hyperliquid.Client.Commands.{place, close_all, serve, serve-Serves}
use async_hyperliquid.Client.Nonces.{serve_all, serve_all-HasFreshNonces}
use async_hyperliquid.Client.Validation.{
  IsValid, FitsGrouping, validate_orders_iff, IsOneVenue, FeeFits, place_orders-rejected,
  place_orders-accepted,
}
use async_hyperliquid.Client.Prices.{ArePriced, price_orders-ArePriced}
use async_hyperliquid.Client.Closing.{Reverses, ClosesOne, closing_orders-reverse}
use async_hyperliquid.Examples.{
  one_and_half, example_floats, example_externals, example_config, example_world,
}
use async_hyperliquid.Examples.Replies.{btc_snapshot}
use async_hyperliquid.Client.Typed.{limited, encode_orders-typed}
use async_hyperliquid.Types.{list_of, has_type}
use async_hyperliquid.Types.Actions.{encoded_order_type}

abbrev example_client : AsyncHyperliquid
example_client = record {
  info = record { info_url = "https://i"; owns_transport = false };
  exchange = example_config;
  dexs = "" ∷ [];
}

abbrev example_request : Bool → PlaceOrderRequest
example_request is_market = record {
  fields_ = record {
    coin = "BTC";
    is_buy = true;
    sz = one_and_half;
    px = one_and_half;
    cloid = none;
    ro = false;
    order_type = none;
  };
  is_market = is_market;
  slippage = default_slippage;
}

abbrev placed_reply : JsonValue
placed_reply = obj (
    field "status" (str "ok") (
      field "response"
        (obj (
          field "type" (str "order") (
            field "data" (obj (field "statuses" (array (str "waitingForFill" ∷ [])) JsonObject.end))
              JsonObject.end)))
        JsonObject.end))

abbrev placing_externals : Externals
placing_externals = record example_externals {
  outcome = λ k request. response 200 (json placed_reply);
}

abbrev loaded_world : World
loaded_world = record (example_world open_) { metadata = some btc_snapshot }

place_orders_of_example :
    (place_orders placing_externals example_client
      (example_request false ∷ [])
      na
      none
      none
      loaded_world).0
    ≡ ok placed_reply
unfolding place_orders ◌>>=◌ fail_if lift pure gets modify validate_orders validate_each
    validate_order market_infos metadata_for ensure_metadata is_known_coin is_outcome_coin get put
    put_perp market_info outcome_market_info indexed_market_info mixes_venues validate_builder
    mid_prices markets_to_price price_orders encode_orders is_outcome_market encode_order
    normalize_price is_integer normalize_size encode_order_type wire_float print digit_char
    print_padded float_le rstrip submit_orders submit_action post_envelope exchange_reply next_nonce
    envelope order_json order_type_json execution_address sign_exchange_action hash_action
    action_data vault_bytes expiry_bytes to_bytes8 post_json post read_outcome
    expect_action_response check_ok check_acknowledgement check_data check_statuses is_order_status
    is_error_status items member
place_orders_of_example = refl

serve-Serves_example :
    Serves example_client (serve example_externals example_client (close_all none none none none))
serve-Serves_example = serve-Serves example_externals example_client (close_all none none none none)

serve_all-HasFreshNonces_example : HasFreshNonces (
    serve_all example_externals example_client
      (place (example_request false ∷ []) na none none ∷ (close_all none none none none ∷ []))
      (example_world open_))
serve_all-HasFreshNonces_example =
    serve_all-HasFreshNonces example_externals example_client
      (place (example_request false ∷ []) na none none ∷ (close_all none none none none ∷ []))
      (example_world open_) none_sent

abbrev btc_market : MarketInfo
btc_market = record {
  coin = "BTC";
  asset = pos 0;
  size_decimals = pos 5;
  is_spot = false;
  dex = "";
}

abbrev priced_request : PlaceOrderRequest
priced_request = record {
  fields_ = record (example_request true).fields_ { order_type = some (OrderType.limit ioc) };
  is_market = false;
  slippage = default_slippage;
}

abbrev example_batch : List PlaceOrderRequest
example_batch = example_request true ∷ (example_request false ∷ [])

price_orders_of_example :
    price_orders example_floats example_batch (btc_market ∷ (btc_market ∷ [])) (one_and_half ∷ [])
    ≡ ok (priced_request ∷ (example_request false ∷ []))
unfolding price_orders market_order market_price is_outcome_market
price_orders_of_example = refl

price_orders-ArePriced_example :
    ArePriced example_floats example_batch
      (btc_market ∷ (btc_market ∷ []))
      (markets_to_price example_batch (btc_market ∷ (btc_market ∷ [])))
      (one_and_half ∷ [])
      (priced_request ∷ (example_request false ∷ []))
price_orders-ArePriced_example =
    price_orders-ArePriced example_floats example_batch (btc_market ∷ (btc_market ∷ []))
      (one_and_half ∷ []) (priced_request ∷ (example_request false ∷ [])) refl
      price_orders_of_example

validate_orders_iff_example : (validate_orders (example_request false ∷ []) normal_tpsl ≡ ok tt) ↔ (
    All IsValid (example_request false ∷ [])
    × FitsGrouping normal_tpsl (example_request false ∷ []))
validate_orders_iff_example = validate_orders_iff (example_request false ∷ []) normal_tpsl

-- A group with a parent alone.
abbrev lonely_parent : Error
lonely_parent = value_error "normalTpsl requires a parent and at least one trigger child"

validate_orders_of_lonely :
    validate_orders (example_request false ∷ []) normal_tpsl ≡ err lonely_parent
unfolding validate_orders validate_each validate_order validate_group
validate_orders_of_lonely = refl

lonely_is_rejected : ¬ (
    All IsValid (example_request false ∷ [])
    × FitsGrouping normal_tpsl (example_request false ∷ []))
lonely_is_rejected v =
    let accepted = (validate_orders_iff (example_request false ∷ []) normal_tpsl).1 v in
    cc (accepted, validate_orders_of_lonely)

place_orders-rejected_example :
    (message : String) × (place_orders example_externals example_client
        (example_request false ∷ [])
        normal_tpsl
        none
        none
        (example_world open_)
      ≡ (err (value_error message), example_world open_))
place_orders-rejected_example =
    place_orders-rejected example_externals example_client (example_request false ∷ []) normal_tpsl
      none none (example_world open_) (inr lonely_is_rejected)

place_orders-accepted_example :
    (is_empty (example_request false ∷ []) ≡ false)
    × All IsValid (example_request false ∷ [])
    × FitsGrouping na (example_request false ∷ [])
    × (markets : List MarketInfo) × (later : World) × (market_infos placing_externals
          example_client.info
          (coins_of (example_request false ∷ []))
          loaded_world
        ≡ (ok markets, later))
    × IsOneVenue markets
    × FeeFits (first_is_spot markets) none
place_orders-accepted_example =
    place_orders-accepted placing_externals example_client (example_request false ∷ []) na none none
      loaded_world placed_reply place_orders_of_example

abbrev short_position : JsonObject
short_position = field "coin" (str "BTC") (field "szi" (str "-1.50000000") JsonObject.end)

abbrev short_size : Float
short_size = finite true 3 (negsuc 0)

-- The interpreter's numbers, with a negative one.
abbrev short_floats : FloatOps
short_floats = record example_floats { parse = λ s. some short_size }

abbrev short_sizes : Dict String Float
short_sizes = ("BTC", short_size) ∷ []

read_positions_of_example : read_positions short_floats (short_position ∷ []) [] ≡ ok short_sizes
unfolding read_positions read_position member put
read_positions_of_example = refl

closing_orders-reverse_example :
    All (ClosesOne short_sizes ("BTC" ∷ [])) (closing_orders short_sizes ("BTC" ∷ []))
    × ((coin : String)
        → Memᴰ coin ("BTC" ∷ [])
        → is_zero (size_of short_sizes coin) ≡ false
        → (order : PlaceOrderRequest) × Memᴰ order (closing_orders short_sizes ("BTC" ∷ []))
          × Reverses coin (size_of short_sizes coin) order)
closing_orders-reverse_example =
    closing_orders-reverse short_floats (short_position ∷ []) short_sizes ("BTC" ∷ [])
      read_positions_of_example

abbrev encoded_request : EncodedOrder
encoded_request = record {
  a = pos 0;
  b = true;
  p = "1.5";
  s = "1.5";
  r = false;
  t = EncodedOrderType.limit "Ioc";
  c = none;
}

encode_orders_of_example :
    encode_orders example_floats (priced_request ∷ []) (btc_market ∷ []) ≡ ok (encoded_request ∷ [])
unfolding encode_orders is_outcome_market encode_order normalize_price is_integer normalize_size
    encode_order_type wire_float print digit_char print_padded float_le rstrip
encode_orders_of_example = refl

encode_orders-typed_example :
    has_type true (list_of encoded_order_type) (array (map order_json (encoded_request ∷ [])))
    ≡ true
encode_orders-typed_example =
    encode_orders-typed example_floats (priced_request ∷ []) (btc_market ∷ [])
      (encoded_request ∷ []) (limited ioc, tt) encode_orders_of_example
