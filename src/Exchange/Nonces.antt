-- ===== src/Exchange/Nonces.antt =====
-- The nonces of a run of several methods: `ExchangeClient._next_nonce` against replays.
use mathlib.Core.Path.{subst}
use async_hyperliquid.Prelude.{ℕ, ◌≤◌, ◌<◌, ◌≡◌, sym, none, some, List, [], ◌∷◌, arith, pos}
use async_hyperliquid.Result.{Result}
use async_hyperliquid.Json.{JsonValue}
use async_hyperliquid.World.{Request, Externals, World}
use async_hyperliquid.Exchange.{Config}
use async_hyperliquid.Exchange.Effects.{nonce_of, Effect, quiet, posted}
use async_hyperliquid.Exchange.Commands.{Command, run, run-Submits}

-- The methods one after the other, whatever each returns or raises.
unfoldable pub run_all : Externals → Config → List Command → World → World
run_all x c [] w = w
run_all x c (k ∷ ks) w = run_all x c ks (run x c k w).1

-- The posted requests, the newest first, have nonces that fall strictly from `bound` on. A request to
-- the info endpoint has none.
pub data IsDescending : ℕ → List Request → Type 0 where
  none_sent : {bound : ℕ} → IsDescending bound []
  one_more :
      {bound : ℕ} {rest : List Request} (n below : ℕ) (request : Request)
      → nonce_of request.payload ≡ some (pos n)
      → n ≤ bound
      → below < n
      → IsDescending below rest
      → IsDescending bound (request ∷ rest)
  no_nonce :
      {bound : ℕ} {rest : List Request} (request : Request)
      → nonce_of request.payload ≡ none
      → IsDescending bound rest
      → IsDescending bound (request ∷ rest)

weaken : {b d : ℕ} {l : List Request} → b ≤ d → IsDescending b l → IsDescending d l
weaken h none_sent = none_sent
weaken h (one_more n below request at bounded above rest) =
    one_more n below request at (omega arith) above rest
weaken h (no_nonce request at rest) = no_nonce request at (weaken h rest)

-- The nonces of a world's requests are below its counter.
abbrev pub HasFreshNonces : World → Type 0
HasFreshNonces w = IsDescending w.last_nonce w.sent

pub Effect-fresh :
    {c : Config} {w w' : World} {r : Result JsonValue}
    → Effect c w.last_nonce w r w'
    → HasFreshNonces w
    → HasFreshNonces w'
Effect-fresh {w' = w'} (quiet before same kept grown) h =
    subst (IsDescending w'.last_nonce) (sym same) (weaken grown h)
Effect-fresh {w = w} {w' = w'} (posted n request after more at nonce kept above below grown) h =
    subst (IsDescending w'.last_nonce) (sym more)
      (one_more n w.last_nonce request nonce below above h)

module _ (x : Externals) (c : Config) where
  -- No nonce is used twice: however many methods run, from a state in which the nonces of the posted
  -- requests decrease strictly from the counter, newest first, they still do.
  pub run_all-HasFreshNonces :
      (ks : List Command) (w : World) → HasFreshNonces w → HasFreshNonces (run_all x c ks w)
  unfolding run_all
  run_all-HasFreshNonces [] w h = h
  run_all-HasFreshNonces (k ∷ ks) w h =
      run_all-HasFreshNonces ks (run x c k w).1 (Effect-fresh ((run-Submits x c k).at w) h)
