-- ===== src/Info/Queries.antt =====
-- What a method of the info client may do to the world, and the rules by which the methods keep to it.
use mathlib.Core.List.{append_assoc}
use async_hyperliquid.Prelude.{
  String, ◌≡◌, refl, sym, ap, ◌∙◌, inl, inr, Bool, true, false, none, List, [], ◌∷◌, ◌++◌, map,
  if◌then◌else◌, All, All-append,
}
use async_hyperliquid.Result.{Error, Result, err, ok}
use async_hyperliquid.Json.{JsonValue}
use async_hyperliquid.World.{Request, Externals, World}
use async_hyperliquid.World.Exec.{Exec, pure, raise, lift, gets, modify, continue, ◌>>=◌}
use async_hyperliquid.Metadata.{MetadataSnapshot}
use async_hyperliquid.Transport.{post_json}
use async_hyperliquid.Transport.Lifecycle.{post_json-sends_iff_open}
use async_hyperliquid.Exchange.Effects.{nonce_of}
use async_hyperliquid.Info.Tasks.{run_tasks, wait_for_tasks}
use async_hyperliquid.Info.Metadata.{publish, is_cold}

-- A request to the info endpoint, which carries no nonce.
abbrev pub IsInfoRequest : String → Request → Type 0
IsInfoRequest url request = (request.url ≡ url) × (nonce_of request.payload ≡ none)

-- From `w` to `w'` requests to the info endpoint went out, and nothing else changed but the cached
-- metadata, which is never dropped.
pub data Queries (url : String) (w w' : World) : Type 0 where
  queried :
      (requests : List Request)
      → All (IsInfoRequest url) requests
      → w'.sent ≡ requests ++ w.sent
      → w'.transport ≡ w.transport
      → w'.last_nonce ≡ w.last_nonce
      → (is_cold w'.metadata ≡ true → is_cold w.metadata ≡ true)
      → Queries url w w'

pub record IsQuery {ℓ} {A : Type ℓ} (url : String) (m : Exec A) : Type 0 where
  pub at : (w : World) → Queries url w (m w).1

pub Queries-refl : (url : String) (w : World) → Queries url w w
Queries-refl url w = queried [] tt refl refl refl (λ h. h)

pub Queries-trans :
    {url : String} {u v w : World} → Queries url u v → Queries url v w → Queries url u w
Queries-trans {u = u} (queried rs all_rs sent transport nonce kept)
      (queried ss all_ss sent' transport' nonce' kept') =
    queried (ss ++ rs) (All-append _ ss rs all_ss all_rs)
      (sent' ∙ ap (λ l. ss ++ l) sent ∙ sym (append_assoc ss rs u.sent)) (transport' ∙ transport)
      (nonce' ∙ nonce) (λ h. kept (kept' h))

module _ {url : String} where
  pub IsQuery-pure {ℓ} : {A : Type ℓ} (a : A) → IsQuery url (pure a)
  unfolding pure
  IsQuery-pure a = record { at = λ w. Queries-refl url w }

  pub IsQuery-raise {ℓ} : {A : Type ℓ} (e : Error) → IsQuery url (raise {A = A} e)
  unfolding raise
  IsQuery-raise e = record { at = λ w. Queries-refl url w }

  pub IsQuery-lift {ℓ} : {A : Type ℓ} (r : Result A) → IsQuery url (lift r)
  unfolding lift
  IsQuery-lift r = record { at = λ w. Queries-refl url w }

  pub IsQuery-gets {ℓ} : {A : Type ℓ} (f : World → A) → IsQuery url (gets f)
  unfolding gets
  IsQuery-gets f = record { at = λ w. Queries-refl url w }

  continue-Queries {ℓ κ} :
      {A : Type ℓ} {B : Type κ} (r : Result A) (f : A → Exec B) (u v : World)
      → Queries url u v
      → ((a : A) → IsQuery url (f a))
      → Queries url u (continue r f v).1
  continue-Queries (ok a) f u v h k = Queries-trans h ((k a).at v)
  continue-Queries (err e) f u v h k = h

  pub IsQuery-bind {ℓ κ} :
      {A : Type ℓ} {B : Type κ} (m : Exec A) (f : A → Exec B)
      → IsQuery url m
      → ((a : A) → IsQuery url (f a))
      → IsQuery url (m >>= f)
  unfolding ◌>>=◌
  IsQuery-bind m f h k = record { at = λ w. continue-Queries (m w).0 f w (m w).1 (h.at w) k }

  pub IsQuery-if {ℓ} :
      {A : Type ℓ} (b : Bool) (m k : Exec A)
      → IsQuery url m
      → IsQuery url k
      → IsQuery url (if b then m else k)
  IsQuery-if true m k h j = h
  IsQuery-if false m k h j = j

  pub IsQuery-publish : (snapshot : MetadataSnapshot) → IsQuery url (publish snapshot)
  unfolding modify
  IsQuery-publish snapshot = record { at = λ w. queried [] tt refl refl refl (λ h. cc h) }

  -- One request, or none if the transport refuses.
  pub IsQuery-post_json :
      (x : Externals) (payload : JsonValue)
      → nonce_of payload ≡ none
      → IsQuery url (post_json x url payload)
  IsQuery-post_json x payload h = record {
    at = λ w. elim (post_json-sends_iff_open x url payload w) [
      | inl (opened, moved) ↦ rw moved (
          queried (record { url = url; payload = payload } ∷ []) ((refl, h), tt) refl refl refl
            (λ k. k))
      | inr (shut, still, message) ↦ rw still (Queries-refl url w)
    ];
  }

  run_tasks-Queries {ℓ} :
      {A : Type ℓ} (ms : List (Exec A)) (w : World)
      → All (IsQuery url) ms
      → Queries url w (run_tasks ms w).1
  unfolding run_tasks
  run_tasks-Queries [] w h = Queries-refl url w
  run_tasks-Queries (m ∷ ms) w h = Queries-trans (h.0.at w) (run_tasks-Queries ms (m w).1 h.1)

  pub IsQuery-wait_for_tasks {ℓ} :
      {A : Type ℓ} (x : Externals) (ms : List (Exec A))
      → All (IsQuery url) ms
      → IsQuery url (wait_for_tasks x ms)
  unfolding wait_for_tasks
  IsQuery-wait_for_tasks x ms h = record { at = λ w. run_tasks-Queries ms w h }

  pub All-map-IsQuery {ℓ κ} :
      {A : Type ℓ} {B : Type κ} (f : A → Exec B)
      → ((a : A) → IsQuery url (f a))
      → (as_ : List A) → All (IsQuery url) (map f as_)
  All-map-IsQuery f h [] = tt
  All-map-IsQuery f h (a ∷ as_) = (h a, All-map-IsQuery f h as_)
