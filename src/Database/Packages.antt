-- ===== src/Database/Packages.antt =====
-- What the financial core calls of packages outside the repository.
use sinkronis_backend.Common.{ℕ, Bool, true, ◌≡◌, false, ◌≤◌}
use sinkronis_backend.Common.Amount.{Amount, IsWhole, exceeds}
use sinkronis_backend.Common.Int.{ℤ, pos, ◌≤ℤ◌}
use sinkronis_backend.Common.Text.{Text}

pub record External : Type 0 where
  -- `Prisma.Decimal.prototype.isPositive`
  pub is_positive : ℤ → Bool
  -- the first 12 hex digits of the SHA-256 of `organizationId:walletAccountId`
  pub wallet_fingerprint : ℕ → ℕ → Text
  -- the SHA-256 of a text, in hex digits
  pub sha256 : Text → Text
  -- what a column keeps of a number, in units of its last place
  pub column : Amount → ℕ
  -- `left.localeCompare(right) > 0`
  pub comes_after : Text → Text → Bool

-- What the database documents of a column with few decimals: a number that needs no more is kept, and
-- rounding does not pass a number that the column could hold.
pub record IsColumn (x : External) : Type 0 where
  pub keeps : (a : Amount) → IsWhole a → x.column a ≡ a.units
  pub within : (a : Amount) (n : ℕ) → exceeds a (pos n) ≡ false → x.column a ≤ n

-- What decimal.js documents of `isPositive`: true of no number below zero, and of every number
-- above it. (On zero it follows the sign bit; nothing is assumed.)
pub record IsSign (x : External) : Type 0 where
  pub sound : (a : ℤ) → x.is_positive a ≡ true → pos 0 ≤ℤ a
  pub complete : (a : ℤ) → pos 1 ≤ℤ a → x.is_positive a ≡ true
