-- ===== src/Result.antt =====
-- src/async_hyperliquid/errors.py: the exceptions, and the outcome of code that may raise.
use async_hyperliquid.Prelude.{ℕ, String, ◌≡◌, refl, ◌⊎◌, inl, inr, Bool, true, false, Option, ℤ}

-- `other` is any exception that the library neither raises nor handles, a cancellation included.
pub data Error : Type 0 where
  http_error : Option ℕ → Error
  protocol_error : String → Error
  indeterminate_action_error : String → ℤ → Error
  value_error : String → Error
  runtime_error : String → Error
  timeout_error : Error
  other : Error

-- The value returned, or the exception raised.
pub data Result {κ} (V : Type κ) : Type κ where
  err : Error → Result V
  ok : V → Result V

infixl 5 ◌>>=◌ ◌>>◌
-- The first exception ends a chain.
abbrev pub ◌>>=◌ {κ μ} : {V : Type κ} {W : Type μ} → Result V → (V → Result W) → Result W
err raised >>= next = err raised
ok v >>= next = next v

abbrev pub ◌>>◌ {κ μ} : {V : Type κ} {W : Type μ} → Result V → Result W → Result W
first >> second = first >>= λ ignored. second

-- `if b: raise e`
abbrev pub raise_if : Bool → Error → Result (Unit {0})
raise_if true e = err e
raise_if false e = ok tt

abbrev pub or_raise {ℓ} : {A : Type ℓ} → Option A → Error → Result A
or_raise (Option.some a) e = ok a
or_raise Option.none e = err e

-- A chain that returns has returned at each link.
pub >>=-eq-ok {κ μ} :
    {V : Type κ} {W : Type μ} (first : Result V) (next : V → Result W) {out : W}
    → (first >>= next) ≡ ok out
    → (v : V) × (first ≡ ok v) × (next v ≡ ok out)
>>=-eq-ok (err raised) next same = cc
>>=-eq-ok (ok v) next same = (v, refl, same)

pub ok_injective {ℓ} : {A : Type ℓ} {a b : A} → ok a ≡ ok b → a ≡ b
ok_injective h = cc

pub Result-cases {ℓ} :
    {A : Type ℓ} (r : Result A) → ((a : A) × (r ≡ ok a)) ⊎ ((e : Error) × (r ≡ err e))
Result-cases (ok a) = inl (a, refl)
Result-cases (err e) = inr (e, refl)

pub err_injective {ℓ} : {A : Type ℓ} {e f : Error} → ◌≡◌ {A = Result A} (err e) (err f) → e ≡ f
err_injective h = cc
