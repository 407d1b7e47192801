-- ===== src/Common/Date.antt =====
-- `Date.prototype.toISOString`, for a time from 1970 to 9999 in milliseconds.
use Prim.Native.Nat.{ℕ, ◌+◌, ◌-◌, ◌*◌, ◌/◌, ◌%◌}
use mathlib.Core.Path.{◌≡◌, refl}
use mathlib.Core.List.{◌++◌}
use sinkronis_backend.Common.Tests.{leb, ltb, if◌then◌else◌}
use sinkronis_backend.Common.Text.{Text, codes}
use sinkronis_backend.Common.Decimal.{padded}

-- A day of the proleptic Gregorian calendar.
pub record Day : Type 0 where
  pub year : ℕ
  pub month : ℕ
  pub day : ℕ

-- From the number of days since 1970-01-01, by years that begin in March.
unfoldable pub civil : ℕ → Day
civil days =
    let z = days + 719468 in
    let of_era = z % 146097 in
    let year_of_era = (of_era - of_era / 1460 + of_era / 36524 - of_era / 146096) / 365 in
    let of_year = of_era - (365 * year_of_era + year_of_era / 4 - year_of_era / 100) in
    let from_march = (5 * of_year + 2) / 153 in
    let m = if ltb from_march 10 then from_march + 3 else from_march - 9 in
    record {
      year = year_of_era + z / 146097 * 400 + (if leb m 2 then 1 else 0);
      month = m;
      day = of_year - (153 * from_march + 2) / 5 + 1;
    }

unfoldable pub iso_string : ℕ → Text
unfolding civil padded
iso_string ms =
    padded 4 d.year
    ++ codes "-"
    ++ padded 2 d.month
    ++ codes "-"
    ++ padded 2 d.day
    ++ codes "T"
    ++ padded 2 (ms / 3600000 % 24)
    ++ codes ":"
    ++ padded 2 (ms / 60000 % 60)
    ++ codes ":"
    ++ padded 2 (ms / 1000 % 60)
    ++ codes "."
    ++ padded 3 (ms % 1000)
    ++ codes "Z"
  where
    d : Day
    d = civil (ms / 86400000)

leap_day : iso_string 1709210096007 ≡ codes "2024-02-29T12:34:56.007Z"
unfolding iso_string civil padded
leap_day = refl
