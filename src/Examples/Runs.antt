-- ===== src/Examples/Runs.antt =====
-- Calls of the transport and the clients, and the bytes that one signs.
use async_hyperliquid.Signing.{big_endian, to_bytes8, vault_bytes, action_data}
use async_hyperliquid.Signing.Preimage.{vault_at, action_data-determines}
use async_hyperliquid.Prelude.{
  ℕ, String, ◌≡◌, refl, ◌⊎◌, true, false, Option, none, some, List, [], ◌∷◌, ℤ, pos,
}
use async_hyperliquid.Result.{runtime_error, err, ok}
use async_hyperliquid.Json.{null, JsonObject}
use async_hyperliquid.World.{open_, closed}
use async_hyperliquid.Transport.{completes, interrupted, post_json}
use async_hyperliquid.Transport.Lifecycle.{
  opening, closing, posting, steps, is_sound, IsSound, steps-closed, post_json-sends_iff_open,
  ClosesOrStays, steps-IsSound,
}
use async_hyperliquid.Exchange.Effects.{Submits}
use async_hyperliquid.Exchange.Nonces.{run_all, none_sent, HasFreshNonces, run_all-HasFreshNonces}
use async_hyperliquid.Exchange.Commands.{trade, transfer, run, run-Submits}
use async_hyperliquid.Exchange.Commands.Trade.{rewards}
use async_hyperliquid.Exchange.Commands.Transfer.{usd}
use async_hyperliquid.Examples.{
  one_and_half, twenty_bytes, example_externals, example_config, example_world,
}

run-Submits_example :
    Submits example_config
      (run example_externals example_config (transfer (usd one_and_half "0xbb")))
run-Submits_example =
    run-Submits example_externals example_config (transfer (usd one_and_half "0xbb"))

run_all-HasFreshNonces_example : HasFreshNonces (
    run_all example_externals example_config
      (transfer (usd one_and_half "0xbb") ∷ (trade (rewards none) ∷ []))
      (example_world open_))
run_all-HasFreshNonces_example =
    run_all-HasFreshNonces example_externals example_config
      (transfer (usd one_and_half "0xbb") ∷ (trade (rewards none) ∷ [])) (example_world open_)
      none_sent

steps-closed_example :
    steps example_externals (opening ∷ (posting "https://x" null ∷ [])) (example_world closed)
    ≡ example_world closed
steps-closed_example =
    steps-closed example_externals (opening ∷ (posting "https://x" null ∷ []))
      (example_world closed) refl

post_json-sends_iff_open_example :
    ((true ≡ true)
      × ((post_json example_externals "https://x" null (example_world open_)).1
          ≡ record (example_world open_) {
            sent = record { url = "https://x"; payload = null } ∷ [];
          }))
    ⊎ ((true ≡ false)
        × ((post_json example_externals "https://x" null (example_world open_)).1
            ≡ example_world open_)
        × ((message : String) × ((post_json example_externals "https://x" null
                (example_world open_)).0
              ≡ err (runtime_error message))))
post_json-sends_iff_open_example =
    post_json-sends_iff_open example_externals "https://x" null (example_world open_)

-- A close that is interrupted when the session is closed already, and one that then completes.
steps-IsSound_example :
    IsSound
      (steps example_externals
        (posting "https://x" null ∷ (closing (interrupted true) ∷ []))
        (example_world open_)).transport
    × ClosesOrStays completes (
        steps example_externals
          (posting "https://x" null ∷ (closing (interrupted true) ∷ []))
          (example_world open_))
steps-IsSound_example =
    steps-IsSound example_externals (posting "https://x" null ∷ (closing (interrupted true) ∷ []))
      completes (example_world open_) (unfold is_sound in refl)

abbrev example_vault : Option String
example_vault = some "0xcc"

abbrev no_expiry : Option ℤ
no_expiry = none

abbrev hashed_bytes : List ℕ
hashed_bytes = 0 ∷ (0 ∷ (0 ∷ (0 ∷ (0 ∷ (0 ∷ (0 ∷ (7 ∷ (1 ∷ twenty_bytes))))))))

action_data_of_example :
    action_data example_externals JsonObject.end example_vault (pos 7) no_expiry ≡ ok hashed_bytes
unfolding action_data to_bytes8 big_endian
action_data_of_example = refl

action_data-determines_example :
    (pos 7 ≡ pos 7)
    × (vault_bytes example_externals example_vault ≡ vault_bytes example_externals example_vault)
    × (no_expiry ≡ no_expiry)
action_data-determines_example =
    action_data-determines example_externals JsonObject.end example_vault example_vault (pos 7)
      (pos 7) no_expiry no_expiry hashed_bytes (vault_at "0xcc" twenty_bytes refl refl)
      (vault_at "0xcc" twenty_bytes refl refl) action_data_of_example action_data_of_example
