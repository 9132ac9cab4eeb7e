-- ===== src/Client/Nonces.antt =====
-- The nonces of a run of several methods of the facade and of the exchange client.
use async_hyperliquid.Prelude.{ℕ, String, sym, List, [], ◌∷◌, ◌++◌, All}
use async_hyperliquid.Result.{Result}
use async_hyperliquid.Json.{JsonValue}
use async_hyperliquid.World.{Request, Externals, World}
use async_hyperliquid.Exchange.Nonces.{IsDescending, no_nonce, HasFreshNonces, Effect-fresh}
use async_hyperliquid.Info.Queries.{IsInfoRequest, Queries, queried}
use async_hyperliquid.Client.{AsyncHyperliquid}
use async_hyperliquid.Client.Effects.{Service, stopped, submitted}
use async_hyperliquid.Client.Commands.{ClientCommand, serve, serve-Serves}
use mathlib.Core.Path.{subst}

-- The methods one after the other, whatever each returns or raises.
unfoldable pub serve_all : Externals → AsyncHyperliquid → List ClientCommand → World → World
serve_all x a [] w = w
serve_all x a (k ∷ ks) w = serve_all x a ks (serve x a k w).1

asked :
    (url : String) (rs : List Request) {bound : ℕ} {l : List Request}
    → All (IsInfoRequest url) rs
    → IsDescending bound l
    → IsDescending bound (rs ++ l)
asked url [] h d = d
asked url (r ∷ rs) h d = no_nonce r h.0.1 (asked url rs h.1 d)

Queries-fresh : {url : String} {w v : World} → Queries url w v → HasFreshNonces w → HasFreshNonces v
Queries-fresh {url} {w} {v} (queried rs all_rs sent transport nonce kept) h =
    subst (λ n. IsDescending n v.sent) (sym nonce)
      (subst (IsDescending w.last_nonce) (sym sent) (asked url rs all_rs h))

Service-fresh :
    {a : AsyncHyperliquid} {w v : World} {r : Result JsonValue}
    → Service a w r v
    → HasFreshNonces w
    → HasFreshNonces v
Service-fresh (stopped q e) h = Queries-fresh q h
Service-fresh (submitted v q e) h = Effect-fresh e (Queries-fresh q h)

module _ (x : Externals) (a : AsyncHyperliquid) where
  -- No nonce is used twice by any run of the facade's methods but `open` and `close`, and of the
  -- exchange client's (`noop` without a nonce of the caller): from a state in which the nonces of the posted actions decrease
  -- strictly from the counter, newest first, they still do, however many requests to the info
  -- endpoint went out between them.
  pub serve_all-HasFreshNonces :
      (ks : List ClientCommand) (w : World) → HasFreshNonces w → HasFreshNonces (serve_all x a ks w)
  unfolding serve_all
  serve_all-HasFreshNonces [] w h = h
  serve_all-HasFreshNonces (k ∷ ks) w h =
      serve_all-HasFreshNonces ks (serve x a k w).1 (Service-fresh ((serve-Serves x a k).at w) h)
