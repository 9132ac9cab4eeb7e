-- ===== src/Client/Commands.antt =====
-- The methods of the facade that read markets or have the exchange client act as commands, one constructor
-- for each with its arguments, and what running one may do. `open` and `close` are no commands.
use async_hyperliquid.Prelude.{
  String, Bool, Option, none, some, List, [], ◌∷◌, string_eq, nat_eq, ℤ, int_eq,
}
use async_hyperliquid.Json.{JsonValue}
use async_hyperliquid.Float.{Float}
use async_hyperliquid.Text.{char_eq}
use async_hyperliquid.Order.{
  OrderGrouping, na, OrderType, PlaceOrderRequest, ModifyOrderRequest, Builder,
}
use async_hyperliquid.Dict.{from_keys}
use async_hyperliquid.World.{Externals}
use async_hyperliquid.World.Exec.{Exec, pure, ◌>>=◌, fail_if}
use async_hyperliquid.Metadata.{MarketInfo, SpotToken}
use async_hyperliquid.Exchange.{execution_address}
use async_hyperliquid.Exchange.Commands.{Command, trade, transfer, run, run-Submits}
use async_hyperliquid.Exchange.Commands.Trade.{TradeCommand, cancels, cloid_cancels, modifies}
use async_hyperliquid.Exchange.Commands.Transfer.{TransferCommand}
use async_hyperliquid.Info.Metadata.{market_of, market_infos, asset_id, spot_token_metadata}
use async_hyperliquid.Info.Queries.{IsQuery, IsQuery-pure, IsQuery-lift, IsQuery-bind}
use async_hyperliquid.Info.Lookups.{
  market_of-IsQuery, market_infos-IsQuery, asset_id-IsQuery, spot_token_metadata-IsQuery,
  mark_price-IsQuery, mid_prices-IsQuery, positions-IsQuery,
}
use async_hyperliquid.Client.{AsyncHyperliquid}
use async_hyperliquid.Client.Orders.{
  markets_to_price, coins_of, place_orders, place_order, place_limit_order, place_trigger_order,
  place_market_order,
}
use async_hyperliquid.Client.Manage.{
  CancelOrder, CancelByCloid, cancel_orders, cancel_order, cancel_orders_by_cloid, cancel_by_cloid,
  modify_order, modify_orders, update_leverage, update_isolated_margin, twap_trigger,
  given_twap_details, twap_details, place_twap, cancel_twap, spot_transfer, send_asset,
  agent_send_asset, send_to_evm_with_data,
}
use async_hyperliquid.Client.Positions.{
  closing_orders, query_dexs, selected_coins, place_closing, close_requested, close_positions,
  close_position, close_all_positions,
}
use async_hyperliquid.Client.Effects.{
  reply_or_null, Serves, Closes, Serves-submit, Serves-query, Serves-lift, Serves-fail_if,
  Closes-nothing, Closes-query, Closes-placed, Serves-closing,
}

pub data ClientCommand : Type 0 where
  place : List PlaceOrderRequest → OrderGrouping → Option Builder → Option ℤ → ClientCommand
  place_limit : PlaceOrderRequest → Option Builder → Option ℤ → ClientCommand
  place_trigger : PlaceOrderRequest → OrderGrouping → Option Builder → Option ℤ → ClientCommand
  place_market : PlaceOrderRequest → Option Builder → Option ℤ → ClientCommand
  cancel_all : List CancelOrder → Bool → Option ℤ → ClientCommand
  cancel_all_by_cloid : List CancelByCloid → Bool → Option ℤ → ClientCommand
  modify_one : ModifyOrderRequest → Option ℤ → ClientCommand
  modify_all : List ModifyOrderRequest → Option ℤ → ClientCommand
  leverage : String → ℤ → Bool → Option ℤ → ClientCommand
  isolated_margin : String → Float → Option ℤ → ClientCommand
  twap :
      String
      → Bool
      → Float
      → ℤ
      → Bool
      → Bool
      → Option Float
      → Option Float
      → Option ℤ
      → ClientCommand
  twap_stop : String → ℤ → Option ℤ → ClientCommand
  spot : String → Float → String → ClientCommand
  asset : String → Float → String → String → String → ClientCommand
  agent_asset : String → Float → String → String → String → Option ℤ → ClientCommand
  evm : String → Float → String → String → String → ℤ → ℤ → String → ClientCommand
  close_all :
      Option (List String) → Option (List String) → Option Builder → Option ℤ → ClientCommand
  place_one :
      String
      → Bool
      → Float
      → Float
      → Bool
      → Bool
      → Option OrderType
      → Option String
      → Float
      → Option Builder
      → Option ℤ
      → ClientCommand
  cancel_one : CancelOrder → Bool → Option ℤ → ClientCommand
  cancel_one_by_cloid : CancelByCloid → Bool → Option ℤ → ClientCommand
  close_one : String → Option Builder → Option ℤ → ClientCommand
  close_every : Option (List String) → Option Builder → Option ℤ → ClientCommand
  direct : Command → ClientCommand

module _ (x : Externals) (a : AsyncHyperliquid) where
  abbrev pub serve : ClientCommand → Exec JsonValue
  serve (place os g b e) = place_orders x a os g b e
  serve (place_limit o b e) = place_limit_order x a o b e
  serve (place_trigger o g b e) = place_trigger_order x a o g b e
  serve (place_market o b e) = place_market_order x a o b e
  serve (cancel_all os fast e) = cancel_orders x a os fast e
  serve (cancel_all_by_cloid os fast e) = cancel_orders_by_cloid x a os fast e
  serve (modify_one o e) = modify_order x a o e
  serve (modify_all os e) = modify_orders x a os e
  serve (leverage coin l cross e) = update_leverage x a coin l cross e
  serve (isolated_margin coin amount e) = update_isolated_margin x a coin amount e
  serve (twap coin buy size m ro rand t s e) = place_twap x a coin buy size m ro rand t s e
  serve (twap_stop coin n e) = cancel_twap x a coin n e
  serve (spot coin amount d) = spot_transfer x a coin amount d
  serve (asset coin amount d s f) = send_asset x a coin amount d s f
  serve (agent_asset coin amount d s f e) = agent_send_asset x a coin amount d s f e
  serve (evm coin amount r s o i g c) = send_to_evm_with_data x a coin amount r s o i g c
  serve (close_all coins dexs b e) = do
    reply ← close_positions x a coins dexs b e
    pure (reply_or_null reply)
  serve (place_one coin buy sz px market ro t cloid slippage b e) =
      place_order x a coin buy sz px market ro t cloid slippage b e
  serve (cancel_one o fast e) = cancel_order x a o fast e
  serve (cancel_one_by_cloid o fast e) = cancel_by_cloid x a o fast e
  serve (close_one coin b e) = do reply ← close_position x a coin b e; pure (reply_or_null reply)
  serve (close_every dexs b e) = do
    reply ← close_all_positions x a dexs b e
    pure (reply_or_null reply)
  serve (direct k) = run x a.exchange k

  submits : (k : Command) → Serves a (run x a.exchange k)
  submits k = Serves-submit (run-Submits x a.exchange k)

  place_orders-Serves :
      (os : List PlaceOrderRequest) (g : OrderGrouping) (b : Option Builder) (e : Option ℤ)
      → Serves a (place_orders x a os g b e)
  unfolding place_orders
  place_orders-Serves os g b e = Serves-fail_if _ _ _ (
      Serves-lift _ _ (λ u.
        Serves-query _ _ (market_infos-IsQuery x a.info (coins_of os)) (λ markets.
          Serves-fail_if _ _ _ (
            Serves-lift _ _ (λ u'.
              Serves-query _ _ (mid_prices-IsQuery x a.info (markets_to_price os markets)) (λ mids.
                Serves-lift _ _ (λ normalized.
                  Serves-lift _ _
                    (λ encoded. submits (trade (TradeCommand.orders encoded g b e))))))))))

  by_market :
      (coin : String) (f : MarketInfo → Exec JsonValue)
      → ((m : MarketInfo) → Serves a (f m))
      → Serves a (market_of x a.info coin >>= f)
  by_market coin f k = Serves-query _ f (market_of-IsQuery x a.info coin) k

  by_asset :
      (coin : String) (f : ℤ → Exec JsonValue)
      → ((n : ℤ) → Serves a (f n))
      → Serves a (asset_id x a.info coin >>= f)
  by_asset coin f k = Serves-query _ f (asset_id-IsQuery x a.info coin) k

  by_token :
      (coin : String) (f : SpotToken → Exec JsonValue)
      → ((t : SpotToken) → Serves a (f t))
      → Serves a (spot_token_metadata x a.info coin >>= f)
  by_token coin f k = Serves-query _ f (spot_token_metadata-IsQuery x a.info coin) k

  by_markets :
      (coins : List String) (f : List MarketInfo → Exec JsonValue)
      → ((ms : List MarketInfo) → Serves a (f ms))
      → Serves a (market_infos x a.info coins >>= f)
  by_markets coins f k = Serves-query _ f (market_infos-IsQuery x a.info coins) k

  twap_trigger-IsQuery :
      (coin : String) (price : Option String)
      → IsQuery a.info.info_url (twap_trigger x a coin price)
  unfolding twap_trigger fail_if
  twap_trigger-IsQuery coin none = IsQuery-pure none
  twap_trigger-IsQuery coin (some price) =
      IsQuery-bind _ _ (mark_price-IsQuery x a.info coin) (λ mark.
        IsQuery-bind _ _ (IsQuery-lift _)
          (λ u. IsQuery-bind _ _ (IsQuery-lift _) (λ px. IsQuery-pure _)))

  given_twap_details-IsQuery :
      (coin : String) (market : MarketInfo) (t s : Option Float)
      → IsQuery a.info.info_url (given_twap_details x a coin market t s)
  unfolding given_twap_details
  given_twap_details-IsQuery coin market t s = IsQuery-bind _ _ (IsQuery-lift _) (λ trigger_px.
      IsQuery-bind _ _ (IsQuery-lift _) (λ stop_px.
        IsQuery-bind _ _ (twap_trigger-IsQuery coin trigger_px) (λ fired. IsQuery-pure _)))

  twap_details-IsQuery :
      (coin : String) (market : MarketInfo) (t s : Option Float)
      → IsQuery a.info.info_url (twap_details x a coin market t s)
  unfolding twap_details
  twap_details-IsQuery coin market none none = IsQuery-pure none
  twap_details-IsQuery coin market none (some s) =
      given_twap_details-IsQuery coin market none (some s)
  twap_details-IsQuery coin market (some t) s = given_twap_details-IsQuery coin market (some t) s

  place_closing-Closes :
      (os : List PlaceOrderRequest) (b : Option Builder) (e : Option ℤ)
      → Closes a (place_closing x a os b e)
  place_closing-Closes [] b e = Closes-nothing
  place_closing-Closes (o ∷ os) b e = Closes-placed _ (place_orders-Serves (o ∷ os) na b e)

  close_requested-Closes :
      (coins dexs : Option (List String)) (b : Option Builder) (e : Option ℤ)
      → Closes a (close_requested x a coins dexs b e)
  close_requested-Closes coins dexs b e =
      Closes-query _ _
        (positions-IsQuery x a.info (execution_address a.exchange) (query_dexs a.dexs coins dexs))
        (λ found.
          Closes-query _ _ (IsQuery-lift _)
            (λ sizes. place_closing-Closes (closing_orders sizes (selected_coins sizes coins)) b e))

  close_positions-Closes :
      (coins dexs : Option (List String)) (b : Option Builder) (e : Option ℤ)
      → Closes a (close_positions x a coins dexs b e)
  unfolding close_positions
  close_positions-Closes none dexs b e = close_requested-Closes none dexs b e
  close_positions-Closes (some []) dexs b e = Closes-nothing
  close_positions-Closes (some (coin ∷ coins)) dexs b e =
      close_requested-Closes (some (from_keys (coin ∷ coins))) dexs b e

  -- Every method of the facade but `open` and `close`, with every argument and from every state: it sends
  -- requests without a nonce to the info endpoint only, and then either stops with an exception or with
  -- nothing to do, having changed nothing but the cached metadata, which is never dropped; or it has
  -- the exchange client submit one action.
  pub serve-Serves : (k : ClientCommand) → Serves a (serve k)
  unfolding place_order cancel_order cancel_by_cloid close_position close_all_positions
      place_limit_order place_trigger_order place_market_order cancel_orders cancel_orders_by_cloid
      modify_order modify_orders update_leverage update_isolated_margin place_twap cancel_twap
      spot_transfer send_asset agent_send_asset send_to_evm_with_data
  serve-Serves (place os g b e) = place_orders-Serves os g b e
  serve-Serves (place_limit o b e) =
      Serves-fail_if _ _ _ (Serves-fail_if _ _ _ (place_orders-Serves (o ∷ []) na b e))
  serve-Serves (place_trigger o g b e) =
      Serves-fail_if _ _ _ (Serves-fail_if _ _ _ (place_orders-Serves (o ∷ []) g b e))
  serve-Serves (place_market o b e) = Serves-fail_if _ _ _ (place_orders-Serves (o ∷ []) na b e)
  serve-Serves (cancel_all os fast e) =
      Serves-fail_if _ _ _ (by_markets _ _ (λ ms. submits (trade (cancels _ fast e))))
  serve-Serves (cancel_all_by_cloid os fast e) =
      Serves-fail_if _ _ _ (by_markets _ _ (λ ms. submits (trade (cloid_cancels _ fast e))))
  serve-Serves (modify_one o e) = Serves-fail_if _ _ _ (
      by_market _ _ (λ m. Serves-lift _ _ (λ one. submits (trade (TradeCommand.modify_one one e)))))
  serve-Serves (modify_all os e) = Serves-fail_if _ _ _ (
      Serves-fail_if _ _ _
        (by_markets _ _ (λ ms. Serves-lift _ _ (λ all_. submits (trade (modifies all_ e))))))
  serve-Serves (leverage coin l cross e) =
      Serves-fail_if _ _ _
        (by_asset coin _ (λ n. submits (trade (TradeCommand.leverage n l cross e))))
  serve-Serves (isolated_margin coin amount e) =
      by_asset coin _ (λ n. submits (trade (TradeCommand.isolated_margin n amount e)))
  serve-Serves (twap coin buy size m ro rand t s e) = Serves-fail_if _ _ _ (
      by_market coin _ (λ market. Serves-fail_if _ _ _ (
        Serves-lift _ _ (λ rounded. Serves-fail_if _ _ _ (
          Serves-query _ _ (twap_details-IsQuery coin market t s) (λ details.
            Serves-lift _ _ (λ wire. submits (trade (TradeCommand.twap _ details e)))))))))
  serve-Serves (twap_stop coin n e) =
      Serves-fail_if _ _ _ (by_asset coin _ (λ k. submits (trade (TradeCommand.cancel_twap k n e))))
  serve-Serves (spot coin amount d) =
      by_token coin _ (λ t. submits (transfer (TransferCommand.spot _ _ amount d)))
  serve-Serves (asset coin amount d s f) =
      by_token coin _ (λ t. submits (transfer (TransferCommand.asset _ _ amount d s f)))
  serve-Serves (agent_asset coin amount d s f e) =
      by_token coin _ (λ t. submits (transfer (TransferCommand.agent_asset _ _ amount d s f e)))
  serve-Serves (evm coin amount r s o i g c) = Serves-fail_if _ _ _ (
      Serves-fail_if _ _ _ (
        Serves-lift _ _ (λ u.
          by_token coin _ (λ t. submits (transfer (TransferCommand.evm _ _ amount r s o i g c))))))
  serve-Serves (close_all coins dexs b e) = Serves-closing _ (close_positions-Closes coins dexs b e)
  serve-Serves (place_one coin buy sz px market ro t cloid slippage b e) =
      place_orders-Serves (_ ∷ []) na b e
  serve-Serves (cancel_one o fast e) =
      Serves-fail_if _ _ _ (by_markets _ _ (λ ms. submits (trade (cancels _ fast e))))
  serve-Serves (cancel_one_by_cloid o fast e) =
      Serves-fail_if _ _ _ (by_markets _ _ (λ ms. submits (trade (cloid_cancels _ fast e))))
  serve-Serves (close_one coin b e) =
      Serves-closing _ (close_positions-Closes (some (coin ∷ [])) none b e)
  serve-Serves (close_every dexs b e) = Serves-closing _ (close_positions-Closes none dexs b e)
  serve-Serves (direct k) = submits k
