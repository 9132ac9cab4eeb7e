-- ===== src/Exchange/Commands/Plain.antt =====
-- The conversions that run before a request raise no indeterminate outcome.
use async_hyperliquid.Prelude.{ℕ, Option, none, some, arith}
use async_hyperliquid.Float.{Float, FloatOps}
use async_hyperliquid.Amount.{amount_in_units, format_token_amount, exact_signed_units}
use async_hyperliquid.Encoding.{wire_float}
use async_hyperliquid.Exchange.Effects.{IsPlain}
use async_hyperliquid.Exchange.Outcomes.{positive_wire_amount, optional_amount}

module _ (ops : FloatOps) where
  pub amount_in_units-IsPlain : (a : Float) (d : ℕ) → IsPlain (amount_in_units ops a d)
  unfolding amount_in_units
  amount_in_units-IsPlain a d = record { at = λ e r. ground arith }

  pub format_token_amount-IsPlain : (a : Float) (d : ℕ) → IsPlain (format_token_amount ops a d)
  unfolding format_token_amount amount_in_units
  format_token_amount-IsPlain a d = record { at = λ e r. ground arith }

  pub exact_signed_units-IsPlain : (a : Float) (d : ℕ) → IsPlain (exact_signed_units ops a d)
  unfolding exact_signed_units
  exact_signed_units-IsPlain a d = record { at = λ e r. ground arith }

  pub wire_float-IsPlain : (a : Float) → IsPlain (wire_float ops a)
  unfolding wire_float
  wire_float-IsPlain a = record { at = λ e r. ground arith }

  pub positive_wire_amount-IsPlain : (a : Float) → IsPlain (positive_wire_amount ops a)
  unfolding positive_wire_amount wire_float
  positive_wire_amount-IsPlain a = record { at = λ e r. ground arith }

  pub optional_amount-IsPlain : (a : Option Float) → IsPlain (optional_amount ops a)
  unfolding positive_wire_amount wire_float
  optional_amount-IsPlain none = record { at = λ e r. cc }
  optional_amount-IsPlain (some a) = record { at = λ e r. ground arith }
