-- ===== src/Exchange/Effects.antt =====
-- What a call of the exchange client may do to the world, and the rules by which the methods keep
-- to it.
use async_hyperliquid.Prelude.{
  ℕ, ◌+◌, ◌/◌, ◌≤◌, ◌<◌, max, String, ◌≡◌, refl, ap, ◌∙◌, Bool, true, false, not, Option, none,
  some, List, ◌∷◌, arith, string_eq, ◌==◌, nat_eq, ℤ, pos, int_eq,
}
use async_hyperliquid.Result.{
  Error, indeterminate_action_error, value_error, other, Result, err, ok,
}
use async_hyperliquid.Json.{JsonValue, int, obj, member}
use async_hyperliquid.World.{Request, Externals, World}
use async_hyperliquid.World.Exec.{Exec, lift, ◌>>=◌, fail_if}
use async_hyperliquid.Exchange.{Config, next_nonce}

-- The nonce of a posted envelope.
unfoldable pub nonce_of : JsonValue → Option ℤ
nonce_of (obj o) = elim (member "nonce" o) [ some (int n) ↦ some n | _ ↦ none ]
nonce_of _ = none

-- How a call may end once its request is out: with the reply, with an error that names the nonce, or
-- with an exception that the library does not handle.
abbrev pub ends_after_post : ℤ → Result JsonValue → Bool
ends_after_post n (ok v) = true
ends_after_post n (err (indeterminate_action_error t m)) = m == n
ends_after_post n (err other) = true
ends_after_post n (err e) = false

abbrev pub is_indeterminate : Error → Bool
is_indeterminate (indeterminate_action_error t m) = true
is_indeterminate _ = false

-- A call that ends without a request has raised, and what it raised is no indeterminate outcome.
abbrev pub ends_before_post : Result JsonValue → Bool
ends_before_post (ok v) = false
ends_before_post (err e) = not (is_indeterminate e)

-- From `w` the call ended as `r` in `w'`; a request has a nonce above `floor`.
pub data Effect (c : Config) (floor : ℕ) (w : World) : Result JsonValue → World → Type 0 where
  quiet :
      {r : Result JsonValue} {w' : World}
      → ends_before_post r ≡ true
      → w'.sent ≡ w.sent
      → w'.transport ≡ w.transport
      → w.last_nonce ≤ w'.last_nonce
      → Effect c floor w r w'
  posted :
      {r : Result JsonValue} {w' : World} (n : ℕ) (request : Request)
      → ends_after_post (pos n) r ≡ true
      → w'.sent ≡ request ∷ w.sent
      → request.url ≡ c.exchange_url
      → nonce_of request.payload ≡ some (pos n)
      → w'.transport ≡ w.transport
      → floor < n
      → n ≤ w'.last_nonce
      → w.last_nonce ≤ w'.last_nonce
      → Effect c floor w r w'

module _ (c : Config) where
  -- From every world, one request at most, with a nonce that was not used before.
  pub record Submits (m : Exec JsonValue) : Type 0 where
    pub at : (w : World) → Effect c w.last_nonce w (m w).0 (m w).1

  -- The same for a call that has drawn the nonce `n` already.
  pub record Sends (n : ℕ) (m : Exec JsonValue) : Type 0 where
    pub at :
        (floor : ℕ) (w : World) → floor < n → w.last_nonce ≡ n → Effect c floor w (m w).0 (m w).1

-- Code that neither posts nor draws a nonce raises no indeterminate outcome.
pub record IsPlain {ℓ} {A : Type ℓ} (r : Result A) : Type ℓ where
  pub at : (e : Error) → r ≡ err e → is_indeterminate e ≡ false

module _ {c : Config} where
  raise-Effect :
      (floor : ℕ) (w : World) (e : Error) → is_indeterminate e ≡ false → Effect c floor w (err e) w
  raise-Effect floor w e h = quiet (ground arith) refl refl (omega arith)

  pub Submits-lift_bind :
      {A : Type 0} (r : Result A) (f : A → Exec JsonValue)
      → IsPlain r
      → ((a : A) → Submits c (f a))
      → Submits c (lift r >>= f)
  unfolding ◌>>=◌
  Submits-lift_bind (ok a) f h k = k a
  Submits-lift_bind (err e) f h k = record { at = λ w. raise-Effect w.last_nonce w e (h.at e refl) }

  pub Submits-fail_if :
      (b : Bool) (message : String) (m : Exec JsonValue)
      → Submits c m
      → Submits c (fail_if b (value_error message) >>= λ _. m)
  unfolding ◌>>=◌ fail_if
  Submits-fail_if false message m k = k
  Submits-fail_if true message m k = record {
    at = λ w. raise-Effect w.last_nonce w (value_error message) refl;
  }

  pub Sends-lift_bind :
      {A : Type 0} (n : ℕ) (r : Result A) (f : A → Exec JsonValue)
      → IsPlain r
      → ((a : A) → Sends c n (f a))
      → Sends c n (lift r >>= f)
  unfolding ◌>>=◌
  Sends-lift_bind n (ok a) f h k = k a
  Sends-lift_bind n (err e) f h k = record {
    at = λ floor w above drawn. raise-Effect floor w e (h.at e refl);
  }

  -- An effect from a world that differs by its counter only.
  lower :
      (w v : World) {floor : ℕ} {r : Result JsonValue} {w' : World}
      → v.sent ≡ w.sent
      → v.transport ≡ w.transport
      → w.last_nonce ≤ v.last_nonce
      → Effect c floor v r w'
      → Effect c floor w r w'
  lower w v sent transport up (quiet before same kept grown) =
      quiet before (same ∙ sent) (kept ∙ transport) (omega arith)
  lower w v sent transport up (posted n request after more at nonce kept above below grown) =
      posted n request after (more ∙ ap (λ (l : List Request). request ∷ l) sent) at nonce
        (kept ∙ transport) above below (omega arith)

  -- Drawing a nonce and sending it.
  pub Submits-next_nonce :
      (x : Externals) (f : ℕ → Exec JsonValue)
      → ((n : ℕ) → Sends c n (f n))
      → Submits c (next_nonce x >>= f)
  unfolding ◌>>=◌ next_nonce
  Submits-next_nonce x f k = record { at = λ w. drawn w }
    where
      drawn :
          (w : World)
          → Effect c w.last_nonce w ((next_nonce x >>= f) w).0 ((next_nonce x >>= f) w).1
      drawn w =
          let n = max (x.time_ns w.readings / 1_000_000) (w.last_nonce + 1) in
          let w' : World = record w { last_nonce = n; readings = w.readings + 1 } in
          lower w w' refl refl (omega arith) ((k n).at w.last_nonce w' (omega arith) refl)
