-- ===== src/Common/Amount.antt =====
-- The amounts of a request: not negative, in decimal digits, as many as were given. The validation
-- (`money` of src/modules/accounting/accounting.validation.ts) bounds the digits of a text only, not
-- those of a number.
use Prim.Native.Nat.{ℕ, zero, suc, ◌*◌}
use mathlib.Core.Bool.{Bool, true, false}
use mathlib.Core.Path.{◌≡◌}
use sinkronis_backend.Common.Tests.{ltb, ◌==◌}
use sinkronis_backend.Common.Int.{ℤ, pos, negsuc}

-- `units`, each the tenth part of the last place of the column, `places` times over
pub record Amount : Type 0 where
  pub units : ℕ
  pub places : ℕ

abbrev pub whole : ℕ → Amount
whole n = record { units = n; places = 0 }

-- `n * 10 ^ places`
unfoldable pub shift : ℕ → ℕ → ℕ
shift zero n = n
shift (suc places) n = 10 * shift places n

-- `amount.gt(b)`, of a number that a column holds
unfoldable pub exceeds : Amount → ℤ → Bool
unfolding shift
exceeds a (pos n) = ltb (shift a.places n) a.units
exceeds a (negsuc n) = true

-- `amount.equals(b)`
unfoldable pub equals : Amount → ℤ → Bool
unfolding shift
equals a (pos n) = a.units == shift a.places n
equals a (negsuc n) = false

-- No digit is below the last place of the column.
abbrev pub IsWhole : Amount → Type 0
IsWhole a = a.places ≡ 0
