-- ===== src/World/Exec.antt =====
-- Methods over the world: what was changed before an exception stays changed.
use async_hyperliquid.Prelude.{Bool}
use async_hyperliquid.Result.{Error, Result, err, ok, raise_if}
use async_hyperliquid.World.{World}

abbrev pub Exec {ℓ} : Type ℓ → Type ℓ
Exec A = World → Result A × World

module _ {ℓ} {A : Type ℓ} where
  unfoldable pub pure : A → Exec A
  pure a w = (ok a, w)

  unfoldable pub raise : Error → Exec A
  raise e w = (err e, w)

  unfoldable pub lift : Result A → Exec A
  lift r w = (r, w)

  unfoldable pub gets : (World → A) → Exec A
  gets f w = (ok (f w), w)

unfoldable pub modify : (World → World) → Exec (Unit {0})
modify f w = (ok tt, f w)

abbrev pub continue {ℓ κ} : {A : Type ℓ} {B : Type κ} → Result A → (A → Exec B) → Exec B
continue (ok a) f w = f a w
continue (err e) f w = (err e, w)

infixl 5 ◌>>=◌ ◌>>◌
-- Opening this opens the actions that it joins.
unfoldable pub ◌>>=◌ {ℓ κ} : {A : Type ℓ} {B : Type κ} → Exec A → (A → Exec B) → Exec B
unfolding pure raise lift gets modify
◌>>=◌ m f w = continue (m w).0 f (m w).1

abbrev pub ◌>>◌ {ℓ κ} : {A : Type ℓ} {B : Type κ} → Exec A → Exec B → Exec B
m >> k = m >>= λ _. k

-- `if b: raise e`
unfoldable pub fail_if : Bool → Error → Exec (Unit {0})
unfolding lift
fail_if b e = lift (raise_if b e)
