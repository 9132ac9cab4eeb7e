-- ===== src/Client/Positions.antt =====
-- src/async_hyperliquid/client.py: closing positions with market orders.
use async_hyperliquid.Prelude.{
  String, true, Option, none, some, List, [], ◌∷◌, map, if◌then◌else◌, string_eq, nat_eq, ℤ, int_eq,
}
use async_hyperliquid.Result.{protocol_error, Result, err, ok}
use async_hyperliquid.Dict.{Dict, get, put, from_keys}
use async_hyperliquid.Json.{JsonValue, str, JsonObject, member}
use async_hyperliquid.Float.{
  Float, is_finite, float_zero, is_zero, is_below_zero, float_abs, FloatOps,
}
use async_hyperliquid.Text.{char_eq}
use async_hyperliquid.Order.{na, PlaceOrderRequest, Builder}
use async_hyperliquid.World.{Externals}
use async_hyperliquid.World.Exec.{Exec, pure, lift, ◌>>=◌}
use async_hyperliquid.Metadata.Perps.{perp_dex}
use async_hyperliquid.Exchange.{execution_address}
use async_hyperliquid.Info.Prices.{positions}
use async_hyperliquid.Client.{AsyncHyperliquid, default_slippage}
use async_hyperliquid.Client.Orders.{place_orders}

-- `_coin_dex` is `_perp_dex`.
unfoldable pub coin_dex : String → String
unfolding perp_dex
coin_dex coin = perp_dex coin

abbrev pub finite_size : String → Option Float → Result (String × Float)
finite_size coin none = err (protocol_error "position contains an invalid size")
finite_size coin (some size) =
    if is_finite size
    then ok (coin, size)
    else err (protocol_error "position contains an invalid size")

abbrev pub sized : FloatOps → Option JsonValue → Option JsonValue → Result (String × Float)
sized ops (some (str coin)) (some (str raw_size)) = finite_size coin (ops.parse raw_size)
sized ops _ _ = err (protocol_error "position contains malformed coin or size")

-- The coin and the size of a position.
unfoldable pub read_position : FloatOps → JsonObject → Result (String × Float)
read_position ops position = sized ops (member "coin" position) (member "szi" position)

-- `position_sizes`, whose keys are `position_order`: the last size of a coin, at its first place
unfoldable pub read_positions :
    FloatOps → List JsonObject → Dict String Float → Result (Dict String Float)
unfolding read_position
read_positions ops [] sizes = ok sizes
read_positions ops (position ∷ positions) sizes = elim (read_position ops position) [
  | ok (coin, size) ↦ read_positions ops positions (put coin size sizes)
  | err e ↦ err e
]

-- The order that closes a position.
abbrev pub closing_order : String → Float → PlaceOrderRequest
closing_order coin size = record {
  fields_ = record {
    coin = coin;
    is_buy = is_below_zero size;
    sz = float_abs size;
    px = float_zero;
    cloid = none;
    ro = true;
    order_type = none;
  };
  is_market = true;
  slippage = default_slippage;
}

-- `position_sizes.get(coin, 0.0)`
unfoldable pub size_of : Dict String Float → String → Float
size_of sizes coin = elim (get coin sizes) [ none ↦ float_zero | some size ↦ size ]

unfoldable pub closing_orders : Dict String Float → List String → List PlaceOrderRequest
closing_orders sizes [] = []
closing_orders sizes (coin ∷ coins) =
    let rest = closing_orders sizes coins in
    if is_zero (size_of sizes coin) then rest else closing_order coin (size_of sizes coin) ∷ rest

-- `query_dexs`
unfoldable pub query_dexs : List String → Option (List String) → Option (List String) → List String
unfolding coin_dex
query_dexs own requested (some dexs) = from_keys dexs
query_dexs own (some requested) none = from_keys (map coin_dex requested)
query_dexs own none none = own

abbrev pub selected_coins : Dict String Float → Option (List String) → List String
selected_coins sizes none = map (λ (entry : String × Float). entry.0) sizes
selected_coins sizes (some requested) = requested

module _ (x : Externals) (a : AsyncHyperliquid) where
  -- The orders of the positions that are open, none if there are none.
  abbrev pub place_closing :
      List PlaceOrderRequest → Option Builder → Option ℤ → Exec (Option JsonValue)
  place_closing [] builder expires_after = pure none
  place_closing (order ∷ orders) builder expires_after = do
    reply ← place_orders x a (order ∷ orders) na builder expires_after
    pure (some reply)

  abbrev pub close_requested :
      Option (List String)
      → Option (List String)
      → Option Builder
      → Option ℤ
      → Exec (Option JsonValue)
  close_requested requested dexs builder expires_after = do
    found ← positions x a.info (execution_address a.exchange) (query_dexs a.dexs requested dexs)
    sizes ← lift (read_positions x.floats found [])
    place_closing (closing_orders sizes (selected_coins sizes requested)) builder expires_after

  unfoldable pub close_positions :
      Option (List String)
      → Option (List String)
      → Option Builder
      → Option ℤ
      → Exec (Option JsonValue)
  close_positions none dexs builder expires_after = close_requested none dexs builder expires_after
  close_positions (some []) dexs builder expires_after = pure none
  close_positions (some (coin ∷ coins)) dexs builder expires_after =
      close_requested (some (from_keys (coin ∷ coins))) dexs builder expires_after

  unfoldable pub close_position : String → Option Builder → Option ℤ → Exec (Option JsonValue)
  close_position coin builder expires_after =
      close_positions (some (coin ∷ [])) none builder expires_after

  unfoldable pub close_all_positions :
      Option (List String) → Option Builder → Option ℤ → Exec (Option JsonValue)
  close_all_positions dexs builder expires_after = close_positions none dexs builder expires_after
