-- ===== src/Common/Decimal.antt =====
-- Numbers in decimal digits.
use Prim.Native.Nat.{ℕ, zero, suc, ◌+◌, ◌-◌, ◌*◌, ◌/◌, ◌%◌, ◌<◌}
use mathlib.Core.Path.{◌≡◌}
use mathlib.Core.List.{[], ◌∷◌, ◌++◌}
use native.Mathlib.Omega.{arith}
use sinkronis_backend.Common.Tests.{ltb, if◌then◌else◌}
use sinkronis_backend.Common.Text.{Text}

-- The last `w` digits.
unfoldable pub padded : ℕ → ℕ → Text
padded zero n = []
padded (suc w) n = padded w (n / 10) ++ (48 + n % 10) ∷ []

unfoldable pub digits : ℕ → ℕ → Text → Text
digits zero n done = done
digits (suc fuel) n done =
    let rest = digits fuel (n / 10) ((48 + n % 10) ∷ done) in
    if ltb n 10 then (48 + n) ∷ done else rest

-- `String(n)`
unfoldable pub decimal : ℕ → Text
unfolding digits
decimal n = digits (suc n) n []

unfoldable pub read_from : ℕ → Text → ℕ
read_from n [] = n
read_from n (c ∷ s) = read_from (n * 10 + (c - 48)) s

read_from-digits :
    (fuel n : ℕ) (done : Text) → n < fuel → read_from 0 (digits fuel n done) ≡ read_from n done
unfolding digits read_from
read_from-digits zero n done h = omega arith
read_from-digits (suc fuel) n done h =
    ground (arith, read_from-digits fuel (n / 10) ((48 + n % 10) ∷ done))

-- The fuel of `decimal` is enough: the number can be read back.
pub read-decimal : (n : ℕ) → read_from 0 (decimal n) ≡ n
unfolding decimal read_from
read-decimal n = read_from-digits (suc n) n [] (omega arith)
