-- ===== src/Order.antt =====
-- src/async_hyperliquid/types/common.py and types/exchange.py: orders as they are asked for and as
-- they are encoded. A `NotRequired` key whose absence reads as its default is a plain field.
pub mod Cloid
use async_hyperliquid.Prelude.{String, Bool, Option, ◌++◌, ℤ, is_negative}
use async_hyperliquid.Result.{value_error, Result, raise_if}
use async_hyperliquid.Float.{Float}
use async_hyperliquid.Text.{chars, of_chars}

pub data Network : Type 0 where
  mainnet testnet : Network

unfoldable pub info_url : Network → String
info_url mainnet = "https://api.hyperliquid.xyz/info"
info_url testnet = "https://api.hyperliquid-testnet.xyz/info"

unfoldable pub exchange_url : Network → String
exchange_url mainnet = "https://api.hyperliquid.xyz/exchange"
exchange_url testnet = "https://api.hyperliquid-testnet.xyz/exchange"

unfoldable pub signature_source : Network → String
signature_source mainnet = "a"
signature_source testnet = "b"

pub data TimeInForce : Type 0 where
  alo ioc gtc : TimeInForce

abbrev pub tif_value : TimeInForce → String
tif_value alo = "Alo"
tif_value ioc = "Ioc"
tif_value gtc = "Gtc"

pub data TriggerKind : Type 0 where
  take_profit stop_loss : TriggerKind

abbrev pub trigger_value : TriggerKind → String
trigger_value take_profit = "tp"
trigger_value stop_loss = "sl"

pub data OrderGrouping : Type 0 where
  na normal_tpsl position_tpsl : OrderGrouping

abbrev pub grouping_value : OrderGrouping → String
grouping_value na = "na"
grouping_value normal_tpsl = "normalTpsl"
grouping_value position_tpsl = "positionTpsl"

-- `LimitOrderType | TriggerOrderType`
pub data OrderType : Type 0 where
  limit : TimeInForce → OrderType
  trigger : Bool → String → String → OrderType

abbrev pub limit_order_type : TimeInForce → OrderType
limit_order_type tif = limit tif

abbrev pub trigger_order_type : Bool → String → TriggerKind → OrderType
trigger_order_type is_market trigger_px tpsl = trigger is_market trigger_px (trigger_value tpsl)

pub record OrderFields : Type 0 where
  pub coin : String
  pub is_buy : Bool
  pub sz : Float
  pub px : Float
  pub cloid : Option String
  pub ro : Bool
  pub order_type : Option OrderType

pub record PlaceOrderRequest : Type 0 where
  pub fields_ : OrderFields
  pub is_market : Bool
  pub slippage : Float

-- `int | Cloid`
pub data OrderId : Type 0 where
  by_oid : ℤ → OrderId
  by_cloid : String → OrderId

pub record ModifyOrderRequest : Type 0 where
  pub fields_ : OrderFields
  pub id : OrderId

pub record Builder : Type 0 where
  pub address : String
  pub fee_tenths_bps : ℤ

pub data EncodedOrderType : Type 0 where
  limit : String → EncodedOrderType
  trigger : Bool → String → String → EncodedOrderType

pub record EncodedOrder : Type 0 where
  pub a : ℤ
  pub b : Bool
  pub p : String
  pub s : String
  pub r : Bool
  pub t : EncodedOrderType
  pub c : Option String

-- `_require_non_negative`
unfoldable pub require_non_negative : String → ℤ → Result (Unit {0})
require_non_negative name value_ =
    raise_if (is_negative value_) (value_error (concat name " must not be negative"))
  where
    concat : String → String → String
    concat a b = of_chars (chars a ++ chars b)
