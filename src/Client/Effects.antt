-- ===== src/Client/Effects.antt =====
-- What a method of the facade may do to the world, and the rules by which the methods keep to it.
use async_hyperliquid.Prelude.{◌≡◌, refl, Bool, true, false, Option, none, some}
use async_hyperliquid.Result.{Error, Result, err, ok, raise_if}
use async_hyperliquid.Json.{JsonValue, null}
use async_hyperliquid.World.{World}
use async_hyperliquid.World.Exec.{Exec, pure, lift, continue, ◌>>=◌, fail_if}
use async_hyperliquid.Exchange.Effects.{Effect, Submits}
use async_hyperliquid.Info.Queries.{Queries, IsQuery, Queries-refl, Queries-trans, IsQuery-lift}
use async_hyperliquid.Client.{AsyncHyperliquid}

-- How a method ends that posts no action: with an exception, or with nothing.
abbrev pub ends_unposted : Result JsonValue → Bool
ends_unposted (ok null) = true
ends_unposted (ok _) = false
ends_unposted (err e) = true

-- A method that returns `None` is read as returning `null`.
abbrev pub reply_or_null : Option JsonValue → JsonValue
reply_or_null none = null
reply_or_null (some v) = v

-- From `w` a method asked the info endpoint, and then either stopped or had the exchange client submit
-- one action.
pub data Service (a : AsyncHyperliquid) (w : World) : Result JsonValue → World → Type 0 where
  stopped :
      {r : Result JsonValue} {w' : World}
      → Queries a.info.info_url w w'
      → ends_unposted r ≡ true
      → Service a w r w'
  submitted :
      {r : Result JsonValue} {w' : World} (v : World)
      → Queries a.info.info_url w v
      → Effect a.exchange v.last_nonce v r w'
      → Service a w r w'

pub record Serves (a : AsyncHyperliquid) (m : Exec JsonValue) : Type 0 where
  pub at : (w : World) → Service a w (m w).0 (m w).1

-- The same for a method that returns `None` when there is nothing to do.
abbrev pub as_reply : Result (Option JsonValue) → Result JsonValue
as_reply (ok none) = ok null
as_reply (ok (some v)) = ok v
as_reply (err e) = err e

pub record Closes (a : AsyncHyperliquid) (m : Exec (Option JsonValue)) : Type 0 where
  pub at : (w : World) → Service a w (as_reply (m w).0) (m w).1

after-Queries :
    (a : AsyncHyperliquid) {u w w' : World} {r : Result JsonValue}
    → Queries a.info.info_url u w
    → Service a w r w'
    → Service a u r w'
after-Queries a q (stopped s e) = stopped (Queries-trans q s) e
after-Queries a q (submitted v s e) = submitted v (Queries-trans q s) e

module _ {a : AsyncHyperliquid} where
  pub Serves-submit : {m : Exec JsonValue} → Submits a.exchange m → Serves a m
  Serves-submit h = record { at = λ w. submitted w (Queries-refl a.info.info_url w) (h.at w) }

  continue-Service :
      {A : Type 0} (r : Result A) (f : A → Exec JsonValue) (u v : World)
      → Queries a.info.info_url u v
      → ((b : A) → Serves a (f b))
      → Service a u (continue r f v).0 (continue r f v).1
  continue-Service (ok b) f u v q k = after-Queries a q ((k b).at v)
  continue-Service (err e) f u v q k = stopped q refl

  pub Serves-query :
      {A : Type 0} (m : Exec A) (f : A → Exec JsonValue)
      → IsQuery a.info.info_url m
      → ((b : A) → Serves a (f b))
      → Serves a (m >>= f)
  unfolding ◌>>=◌
  Serves-query m f h k = record { at = λ w. continue-Service (m w).0 f w (m w).1 (h.at w) k }

  pub Serves-lift :
      {A : Type 0} (r : Result A) (f : A → Exec JsonValue)
      → ((b : A) → Serves a (f b))
      → Serves a (lift r >>= f)
  Serves-lift r f k = Serves-query (lift r) f (IsQuery-lift r) k

  pub Serves-fail_if :
      (b : Bool) (e : Error) (m : Exec JsonValue) → Serves a m → Serves a (fail_if b e >>= λ _. m)
  unfolding fail_if
  Serves-fail_if b e m h = Serves-lift (raise_if b e) (λ _. m) (λ _. h)

  pub Closes-nothing : Closes a (pure none)
  unfolding pure
  Closes-nothing = record { at = λ w. stopped (Queries-refl a.info.info_url w) refl }

  continue_closing :
      {A : Type 0} (r : Result A) (f : A → Exec (Option JsonValue)) (u v : World)
      → Queries a.info.info_url u v
      → ((b : A) → Closes a (f b))
      → Service a u (as_reply (continue r f v).0) (continue r f v).1
  continue_closing (ok b) f u v q k = after-Queries a q ((k b).at v)
  continue_closing (err e) f u v q k = stopped q refl

  pub Closes-query :
      {A : Type 0} (m : Exec A) (f : A → Exec (Option JsonValue))
      → IsQuery a.info.info_url m
      → ((b : A) → Closes a (f b))
      → Closes a (m >>= f)
  unfolding ◌>>=◌
  Closes-query m f h k = record { at = λ w. continue_closing (m w).0 f w (m w).1 (h.at w) k }

  placed_Service :
      (r : Result JsonValue) {w v : World}
      → Service a w r v
      → Service a w
          (as_reply (continue r (λ reply. pure (some reply)) v).0)
          (continue r (λ reply. pure (some reply)) v).1
  unfolding pure
  placed_Service (ok reply) h = h
  placed_Service (err e) h = h

  pub Closes-placed :
      (m : Exec JsonValue) → Serves a m → Closes a (m >>= λ reply. pure (some reply))
  unfolding ◌>>=◌
  Closes-placed m h = record { at = λ w. placed_Service (m w).0 (h.at w) }

  replied_Service :
      (r : Result (Option JsonValue)) {w v : World}
      → Service a w (as_reply r) v
      → Service a w
          (continue r (λ reply. pure (reply_or_null reply)) v).0
          (continue r (λ reply. pure (reply_or_null reply)) v).1
  unfolding pure
  replied_Service (ok none) h = h
  replied_Service (ok (some reply)) h = h
  replied_Service (err e) h = h

  pub Serves-closing :
      (m : Exec (Option JsonValue))
      → Closes a m
      → Serves a (m >>= λ reply. pure (reply_or_null reply))
  unfolding ◌>>=◌
  Serves-closing m h = record { at = λ w. replied_Service (m w).0 (h.at w) }
