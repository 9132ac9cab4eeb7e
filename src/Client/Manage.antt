-- ===== src/Client/Manage.antt =====
-- src/async_hyperliquid/client.py: cancels, modifies, leverage, TWAP orders and token transfers.

use async_hyperliquid.Prelude.{
  String, Bool, false, not, ◌&&◌, ◌||◌, Option, none, some, List, [], ◌∷◌, ◌++◌, map, if◌then◌else◌,
  string_eq, ◌==◌, nat_eq, is_empty, any, ℤ, pos, leb_ℤ, is_negative, int_eq,
}
use async_hyperliquid.Result.{protocol_error, value_error, Result, err, ok}
use async_hyperliquid.Json.{JsonValue}
use async_hyperliquid.Float.{Float, is_finite, float_lt, is_at_most_zero, FloatOps}
use async_hyperliquid.Text.{Chars, chars, of_chars, char_eq}
use async_hyperliquid.Order.{
  OrderId, by_oid, by_cloid, ModifyOrderRequest, EncodedOrder, require_non_negative,
}
use async_hyperliquid.Metadata.{MarketInfo, SpotToken}
use async_hyperliquid.Encoding.{
  to_float, number_is_zero, wire_float, normalize_size, parse_price, encode_order,
}
use async_hyperliquid.World.{Externals}
use async_hyperliquid.World.Exec.{Exec, pure, lift, ◌>>=◌, ◌>>◌, fail_if}
use async_hyperliquid.Exchange.Trading.{
  TwapDetails, submit_cancels, submit_cloid_cancels, submit_modify, submit_modifies, submit_twap,
  submit_twap_cancel,
}
use async_hyperliquid.Info.Metadata.{market_of, market_infos, asset_id, spot_token_metadata}
use async_hyperliquid.Info.Prices.{mark_price}
use async_hyperliquid.Client.{AsyncHyperliquid, is_outcome_market, encode_twap_price}
use async_hyperliquid.Exchange.Trading.{
  update_leverage as exchange_update_leverage,
  update_isolated_margin as exchange_update_isolated_margin,
}
use async_hyperliquid.Exchange.Transfers.{
  spot_transfer as exchange_spot_transfer, send_asset as exchange_send_asset,
  agent_send_asset as exchange_agent_send_asset,
  send_to_evm_with_data as exchange_send_to_evm_with_data,
}

pub record CancelOrder : Type 0 where
  pub coin : String
  pub oid : ℤ

pub record CancelByCloid : Type 0 where
  pub coin : String
  pub cloid : String

-- `CancelOrder.__post_init__`
unfoldable pub new_cancel_order : String → ℤ → Result CancelOrder
unfolding require_non_negative
new_cancel_order coin oid = elim (require_non_negative "oid" oid) [
  | ok u ↦ ok (record { coin = coin; oid = oid })
  | err e ↦ err e
]

-- `zip(commands, markets, strict=True)`, for lists of one length
unfoldable pub zip_with {ℓ κ μ} :
    {A : Type ℓ} {B : Type κ} {C : Type μ} → (A → B → C) → List A → List B → List C
zip_with f (a ∷ as_) (b ∷ bs) = f a b ∷ zip_with f as_ bs
zip_with f _ _ = []

-- `_encode_modify`
unfoldable pub encode_modify :
    FloatOps → ModifyOrderRequest → MarketInfo → Result (OrderId × EncodedOrder)
encode_modify ops order market =
    elim (encode_order ops order.fields_ market.asset market.size_decimals market.is_spot
      (is_outcome_market market)) [ ok encoded ↦ ok (order.id, encoded) | err e ↦ err e ]

unfoldable pub encode_modifies :
    FloatOps → List ModifyOrderRequest → List MarketInfo → Result (List (OrderId × EncodedOrder))
unfolding encode_modify
encode_modifies ops (order ∷ orders) (market ∷ markets) =
    let rest = encode_modifies ops orders markets in
    elim (encode_modify ops order market) [
      | ok m ↦ elim rest [ ok more ↦ ok (m ∷ more) | err e ↦ err e ]
      | err e ↦ err e
    ]
encode_modifies ops [] [] = ok []
encode_modifies ops _ _ = err (value_error "zip() argument 2 is of another length than argument 1")

-- `isinstance(oid, int) and oid < 0`
abbrev pub is_negative_id : OrderId → Bool
is_negative_id (by_oid n) = is_negative n
is_negative_id (by_cloid t) = false

-- `f"{token['name']}:{token['tokenId']}"`
unfoldable pub token_name : SpotToken → String
token_name token = of_chars (chars token.name ++ (":" ∷ chars token.token_id))

-- `data.startswith(("0x", "0X"))`, and what follows
abbrev pub hex_digits_of : Chars → Option Chars
hex_digits_of (z ∷ (p ∷ rest)) =
    if (z == "0") && ((p == "x") || (p == "X")) then some rest else none
hex_digits_of _ = none

unfoldable pub validate_calldata : Externals → String → Result (Unit {0})
validate_calldata x text = elim (hex_digits_of (chars text)) [
  | none ↦ err (value_error "data must be a hex string")
  | some digits ↦ elim (x.from_hex (of_chars digits)) [
    | none ↦ err (value_error "data must be a hex string")
    | some bytes ↦ ok tt
  ]
]

-- `None if price is None else _encode_twap_price(price, market)`
abbrev pub optional_twap_price : FloatOps → Option Float → MarketInfo → Result (Option String)
optional_twap_price ops none market = ok none
optional_twap_price ops (some price) market = elim (encode_twap_price ops price market) [
  | ok t ↦ ok (some t)
  | err e ↦ err e
]

module _ (x : Externals) (a : AsyncHyperliquid) where
  unfoldable pub cancel_orders : List CancelOrder → Bool → Option ℤ → Exec JsonValue
  cancel_orders orders fast expires_after = do
    fail_if (is_empty orders) (value_error "orders must not be empty")
    markets ← market_infos x a.info (map (λ (o : CancelOrder). o.coin) orders)
    submit_cancels x a.exchange
        (zip_with (λ (o : CancelOrder) (m : MarketInfo). (m.asset, o.oid)) orders markets) fast
        expires_after

  unfoldable pub cancel_order : CancelOrder → Bool → Option ℤ → Exec JsonValue
  cancel_order order fast expires_after = cancel_orders (order ∷ []) fast expires_after

  unfoldable pub cancel_orders_by_cloid : List CancelByCloid → Bool → Option ℤ → Exec JsonValue
  cancel_orders_by_cloid orders fast expires_after = do
    fail_if (is_empty orders) (value_error "orders must not be empty")
    markets ← market_infos x a.info (map (λ (o : CancelByCloid). o.coin) orders)
    submit_cloid_cancels x a.exchange
        (zip_with (λ (o : CancelByCloid) (m : MarketInfo). (m.asset, o.cloid)) orders markets) fast
        expires_after

  unfoldable pub cancel_by_cloid : CancelByCloid → Bool → Option ℤ → Exec JsonValue
  cancel_by_cloid order fast expires_after = cancel_orders_by_cloid (order ∷ []) fast expires_after

  unfoldable pub modify_order : ModifyOrderRequest → Option ℤ → Exec JsonValue
  modify_order order expires_after = do
    fail_if (is_negative_id order.id) (value_error "oid must not be negative")
    market ← market_of x a.info order.fields_.coin
    encoded ← lift (encode_modify x.floats order market)
    submit_modify x a.exchange encoded expires_after

  unfoldable pub modify_orders : List ModifyOrderRequest → Option ℤ → Exec JsonValue
  modify_orders orders expires_after = do
    fail_if (is_empty orders) (value_error "orders must not be empty")
    fail_if (any (λ (o : ModifyOrderRequest). is_negative_id o.id) orders)
        (value_error "oid must not be negative")
    markets ← market_infos x a.info (map (λ (o : ModifyOrderRequest). o.fields_.coin) orders)
    encoded ← lift (encode_modifies x.floats orders markets)
    submit_modifies x a.exchange encoded expires_after

  unfoldable pub update_leverage : String → ℤ → Bool → Option ℤ → Exec JsonValue
  update_leverage coin leverage is_cross expires_after = do
    fail_if (leb_ℤ leverage (pos 0)) (value_error "leverage must be greater than zero")
    asset ← asset_id x a.info coin
    exchange_update_leverage x a.exchange asset leverage is_cross expires_after

  unfoldable pub update_isolated_margin : String → Float → Option ℤ → Exec JsonValue
  update_isolated_margin coin amount expires_after = do
    asset ← asset_id x a.info coin
    exchange_update_isolated_margin x a.exchange asset amount expires_after

  -- The trigger of a TWAP order: it fires above the price if that is above the mark.
  unfoldable pub twap_trigger : String → Option String → Exec (Option (String × Bool))
  twap_trigger coin none = pure none
  twap_trigger coin (some price) = do
    mark_px ← mark_price x a.info coin
    fail_if (not (is_finite mark_px) || is_at_most_zero mark_px)
        (protocol_error "mark price must be finite and greater than zero")
    trigger_px ← lift (parse_price x.floats price)
    pure (some (price, float_lt mark_px trigger_px))

  unfoldable pub given_twap_details :
      String → MarketInfo → Option Float → Option Float → Exec (Option TwapDetails)
  given_twap_details coin market trigger_px stop_px = do
    encoded_trigger_px ← lift (optional_twap_price x.floats trigger_px market)
    encoded_stop_px ← lift (optional_twap_price x.floats stop_px market)
    fired ← twap_trigger coin encoded_trigger_px
    pure (some (record { trigger_ = fired; stop = encoded_stop_px }))

  -- `if trigger_px is not None or stop_px is not None`
  unfoldable pub twap_details :
      String → MarketInfo → Option Float → Option Float → Exec (Option TwapDetails)
  twap_details coin market none none = pure none
  twap_details coin market none (some stop_px) = given_twap_details coin market none (some stop_px)
  twap_details coin market (some trigger_px) stop_px =
      given_twap_details coin market (some trigger_px) stop_px

  unfoldable pub place_twap :
      String
      → Bool
      → Float
      → ℤ
      → Bool
      → Bool
      → Option Float
      → Option Float
      → Option ℤ
      → Exec JsonValue
  place_twap coin is_buy size minutes reduce_only randomize trigger_px stop_px expires_after = do
    fail_if (leb_ℤ minutes (pos 0)) (value_error "minutes must be greater than zero")
    market ← market_of x a.info coin
    fail_if (market.is_spot && reduce_only) (value_error "spot orders cannot be reduce-only")
    rounded_size ← lift (normalize_size x.floats size market.size_decimals)
    fail_if (number_is_zero rounded_size) (value_error "TWAP size must be greater than zero")
    details ← twap_details coin market trigger_px stop_px
    s ← lift (wire_float x.floats (to_float rounded_size))
    submit_twap x a.exchange
        (record {
          asset = market.asset;
          is_buy = is_buy;
          size = s;
          reduce_only = reduce_only;
          minutes = minutes;
          randomize = randomize;
        })
        details expires_after

  unfoldable pub cancel_twap : String → ℤ → Option ℤ → Exec JsonValue
  cancel_twap coin twap_id expires_after = do
    fail_if (is_negative twap_id) (value_error "twap_id must not be negative")
    asset ← asset_id x a.info coin
    submit_twap_cancel x a.exchange asset twap_id expires_after

  unfoldable pub spot_transfer : String → Float → String → Exec JsonValue
  spot_transfer coin amount destination = do
    token ← spot_token_metadata x a.info coin
    exchange_spot_transfer x a.exchange (token_name token) token.wei_decimals amount destination

  unfoldable pub send_asset : String → Float → String → String → String → Exec JsonValue
  send_asset coin amount destination source_dex destination_dex = do
    token ← spot_token_metadata x a.info coin
    exchange_send_asset x a.exchange (token_name token) token.wei_decimals amount destination
        source_dex destination_dex

  unfoldable pub agent_send_asset :
      String → Float → String → String → String → Option ℤ → Exec JsonValue
  agent_send_asset coin amount destination source_dex destination_dex expires_after = do
    token ← spot_token_metadata x a.info coin
    exchange_agent_send_asset x a.exchange (token_name token) token.wei_decimals amount destination
        source_dex destination_dex expires_after

  unfoldable pub send_to_evm_with_data :
      String → Float → String → String → String → ℤ → ℤ → String → Exec JsonValue
  send_to_evm_with_data coin amount recipient source_dex encoding chain_id gas_limit calldata = do
    fail_if (is_negative chain_id) (value_error "destination_chain_id must not be negative")
    fail_if (is_negative gas_limit) (value_error "gas_limit must not be negative")
    lift (validate_calldata x calldata)
    token ← spot_token_metadata x a.info coin
    exchange_send_to_evm_with_data x a.exchange (token_name token) token.wei_decimals amount
        recipient source_dex encoding chain_id gas_limit calldata
