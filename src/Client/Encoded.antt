-- ===== src/Client/Encoded.antt =====
-- src/async_hyperliquid/client.py: a batch of orders as it is encoded, market by market.
use async_hyperliquid.Prelude.{List, [], ◌∷◌}
use async_hyperliquid.Float.{FloatOps}
use async_hyperliquid.Order.{PlaceOrderRequest, EncodedOrder}
use async_hyperliquid.Encoding.Orders.{IsEncoded}
use async_hyperliquid.Metadata.{MarketInfo}
use async_hyperliquid.Client.{is_outcome_market}

-- Each order in its place, for the market in the same place.
pub data AreEncoded (ops : FloatOps)
    : List PlaceOrderRequest → List MarketInfo → List EncodedOrder → Type 0 where
  none_left : AreEncoded ops [] [] []
  next :
      {order : PlaceOrderRequest} {m : MarketInfo} {e : EncodedOrder}
      {orders : List PlaceOrderRequest} {markets : List MarketInfo} {out : List EncodedOrder}
      → IsEncoded ops order.fields_ m.asset m.size_decimals m.is_spot (is_outcome_market m) e
      → AreEncoded ops orders markets out
      → AreEncoded ops (order ∷ orders) (m ∷ markets) (e ∷ out)
