-- ===== src/Exchange/Commands.antt =====
-- The methods of `ExchangeClient` that sign and post, as commands: one constructor for each method,
-- with the arguments of the method. The facade `AsyncHyperliquid` reaches the exchange by these.
pub mod Plain
pub mod Trade
pub mod Transfer
pub mod Account
use async_hyperliquid.Json.{JsonValue}
use async_hyperliquid.World.{Externals}
use async_hyperliquid.World.Exec.{Exec}
use async_hyperliquid.Exchange.{Config}
use async_hyperliquid.Exchange.Effects.{Submits}
use async_hyperliquid.Exchange.Commands.Trade.{TradeCommand, run_trade, run_trade-Submits}
use async_hyperliquid.Exchange.Commands.Transfer.{
  TransferCommand, run_transfer, run_transfer-Submits,
}
use async_hyperliquid.Exchange.Commands.Account.{AccountCommand, run_account, run_account-Submits}

pub data Command : Type 0 where
  trade : TradeCommand → Command
  transfer : TransferCommand → Command
  account : AccountCommand → Command

module _ (x : Externals) (c : Config) where
  abbrev pub run : Command → Exec JsonValue
  run (trade k) = run_trade x c k
  run (transfer k) = run_transfer x c k
  run (account k) = run_account x c k

  -- Every method, with every argument, from every state of the clients: it posts at most one
  -- request, to the configured URL, and the nonce of that request is above every nonce drawn before
  -- and no greater than the counter it leaves. It returns a value or reports an indeterminate
  -- outcome only after a post, an indeterminate outcome names the nonce posted, and the transport is
  -- left as it was. (`noop` is run without a nonce of the caller's.)
  pub run-Submits : (k : Command) → Submits c (run k)
  run-Submits (trade k) = run_trade-Submits x c k
  run-Submits (transfer k) = run_transfer-Submits x c k
  run-Submits (account k) = run_account-Submits x c k
