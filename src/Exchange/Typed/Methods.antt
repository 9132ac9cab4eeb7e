-- ===== src/Exchange/Typed/Methods.antt =====
-- Every method of the exchange client by its types.
use async_hyperliquid.World.{Externals}
use async_hyperliquid.Response.{ResponseType, default}
use async_hyperliquid.Response.Typed.{reply_type}
use async_hyperliquid.Exchange.{Config}
use async_hyperliquid.Exchange.Commands.{Command, trade, transfer, account, run}
use async_hyperliquid.Exchange.Typed.{IsTyped}
use async_hyperliquid.Exchange.Typed.Trade.{HasTypedTrade, trade_response, run_trade-IsTyped}
use async_hyperliquid.Exchange.Typed.Transfer.{HasTypedTransfer, run_transfer-IsTyped}
use async_hyperliquid.Exchange.Typed.Account.{HasTypedAccount, run_account-IsTyped}

abbrev pub HasTypes : Command → Type 0
HasTypes (trade k) = HasTypedTrade k
HasTypes (transfer k) = HasTypedTransfer k
HasTypes (account k) = HasTypedAccount k

-- The response that a method expects; its reply type is the one that the method declares.
abbrev pub response_of : Command → ResponseType
response_of (trade k) = trade_response k
response_of (transfer k) = default
response_of (account k) = default

module _ (x : Externals) (c : Config) where
  -- Every method of the exchange client whose `Literal` and enumeration arguments have declared values,
  -- from every state of the clients: each request it posts is an `ActionEnvelope` of the declared types,
  -- with exactly the declared keys, and a value that it returns has the type that the method declares,
  -- further keys aside. (`noop` is run without a nonce of the caller's.)
  pub run-IsTyped : (k : Command) → HasTypes k → IsTyped (reply_type (response_of k)) (run x c k)
  run-IsTyped (trade k) h = run_trade-IsTyped x c k h
  run-IsTyped (transfer k) h = run_transfer-IsTyped x c k h
  run-IsTyped (account k) h = run_account-IsTyped x c k h
