-- ===== src/Invoice/Whole.antt =====
-- Amounts that the column keeps as they are, compared with what it holds.
use sinkronis_backend.Common.{ℕ, ◌≡◌, sym, ap, ◌∙◌, not, arith}
use sinkronis_backend.Common.Int.{ℤ, pos, negsuc, leb_ℤ, eqb_ℤ}
use sinkronis_backend.Common.Amount.{Amount, whole, IsWhole, shift, exceeds, equals}
use sinkronis_backend.Database.{External, IsColumn}

not_above : (n : ℕ) (b : ℤ) → not (exceeds (whole n) b) ≡ leb_ℤ (pos n) b
unfolding exceeds shift
not_above n (pos m) = ground arith
not_above n (negsuc m) = ground arith

same_number : (n : ℕ) (b : ℤ) → equals (whole n) b ≡ eqb_ℤ (pos n) b
unfolding equals shift
same_number n (pos m) = ground arith
same_number n (negsuc m) = ground arith

abbrev with_places : ℕ → ℕ → Amount
with_places n p = record { units = n; places = p }

whole_units : (a : Amount) → IsWhole a → a ≡ whole a.units
whole_units a w = ap (with_places a.units) w

module _ (x : External) (columns : IsColumn x) (a : Amount) (w : IsWhole a) where
  pub not-exceeds : (b : ℤ) → not (exceeds a b) ≡ leb_ℤ (pos (x.column a)) b
  not-exceeds b =
      ap (λ c. not (exceeds c b)) (whole_units a w)
      ∙ not_above a.units b
      ∙ ap (λ n. leb_ℤ (pos n) b) (sym (columns.keeps a w))

  pub equals_iff : (b : ℤ) → equals a b ≡ eqb_ℤ (pos (x.column a)) b
  equals_iff b =
      ap (λ c. equals c b) (whole_units a w)
      ∙ same_number a.units b
      ∙ ap (λ n. eqb_ℤ (pos n) b) (sym (columns.keeps a w))
