-- ===== src/Invoice/Rounding.antt =====
-- The rounding of the VAT and of the withholding tax.
use sinkronis_backend.Common.{
  ℕ, suc, Bool, true, false, ◌≡◌, refl, Option, none, some, List, [], ◌∷◌, length, ◌≢◌, ◌+◌, ◌*◌,
  ◌≤◌, ◌<◌, ◌⊎◌, ◌==◌, ==_iff, ◌||◌, arith, inl, inr, Bool-cases,
}
use sinkronis_backend.Common.Amount.{Amount, whole, shift, IsWhole}
use sinkronis_backend.Common.Table.{Table}
use sinkronis_backend.Database.{External, IsColumn, CatalogueItem, InvoiceItem}
use sinkronis_backend.Invoice.Amounts.{Wht, round_half_up, calculate_invoice_wht}
use sinkronis_backend.Invoice.Lines.{
  LineInput, item_of, or_else, line_price, line_vat_rate, price_times, vat_on, resolve_line,
  resolve_lines, sum_subtotals, sum_vat,
}

-- A line is rounded to the nearest hundredth, with a half rounded up: first the price of the
-- quantity, then the tax of that.
IsNearest : InvoiceItem → Type 0
IsNearest line =
    (line.line_subtotal * 100 ≤ line.unit_price * line.quantity + 50)
    × (line.unit_price * line.quantity + 50 < line.line_subtotal * 100 + 100)
    × (line.vat_amount * 10_000 ≤ line.line_subtotal * line.vat_rate + 5000)
    × (line.line_subtotal * line.vat_rate + 5000 < line.vat_amount * 10_000 + 10_000)
    × (line.total ≡ line.line_subtotal + line.vat_amount)

-- The price and the quantity of a line have at most two decimals.
abbrev IsWholePrice : Option Amount → Type 0
IsWholePrice none = Unit
IsWholePrice (some price) = IsWhole price

abbrev pub IsWholeLine : LineInput → Type 0
IsWholeLine line = IsWhole line.quantity × IsWholePrice line.unit_price

abbrev pub AreWholeLines : List LineInput → Type 0
AreWholeLines [] = Unit
AreWholeLines (line ∷ lines) = IsWholeLine line × AreWholeLines lines

line_price-IsWhole :
    (catalogue : Table CatalogueItem) (line : LineInput)
    → IsWholePrice line.unit_price
    → IsWhole (line_price catalogue line)
line_price-IsWhole catalogue line w = price_or line.unit_price (item_of catalogue line) w
  where
    price_or :
        (price : Option Amount) (item : Option CatalogueItem)
        → IsWholePrice price
        → IsWhole (or_else price item (λ i. whole i.unit_price) (whole 0))
    price_or (some price) item w = w
    price_or none (some item) w = refl
    price_or none none w = refl

line_vat_rate-IsWhole :
    (applicable : Bool) (vat : Amount) → IsWhole vat → IsWhole (line_vat_rate applicable vat)
line_vat_rate-IsWhole true vat w = w
line_vat_rate-IsWhole false vat w = refl

price_times-near :
    (p q : Amount)
    → IsWhole p
    → IsWhole q
    → (price_times p q * 100 ≤ p.units * q.units + 50)
      × (p.units * q.units + 50 < price_times p q * 100 + 100)
unfolding price_times round_half_up shift
price_times-near p q v w = rw (v, w) (omega arith, omega arith)

vat_on-near :
    (subtotal : ℕ) (rate : Amount)
    → IsWhole rate
    → (vat_on subtotal rate * 10_000 ≤ subtotal * rate.units + 5000)
      × (subtotal * rate.units + 5000 < vat_on subtotal rate * 10_000 + 10_000)
unfolding vat_on round_half_up shift
vat_on-near subtotal rate w = rw w (omega arith, omega arith)

module _ (x : External) (columns : IsColumn x) (vat : Amount) (whole_vat : IsWhole vat) where
  resolve_line-IsNearest :
      (catalogue : Table CatalogueItem) (line : LineInput)
      → IsWholeLine line
      → IsNearest (resolve_line x vat catalogue line)
  unfolding IsNearest resolve_line
  resolve_line-IsNearest catalogue line (q, p) =
      let price = line_price catalogue line in
      let applicable =
        or_else line.vat_applicable (item_of catalogue line) (λ i. i.vat_applicable) false in
      let rate = line_vat_rate applicable vat in
      let whole_price = line_price-IsWhole catalogue line p in
      let whole_rate = line_vat_rate-IsWhole applicable vat whole_vat in
      let (a, b) = price_times-near price line.quantity whole_price q in
      let (c, d) = vat_on-near (price_times price line.quantity) rate whole_rate in
      rw
        (
          columns.keeps line.quantity q,
          columns.keeps price whole_price,
          columns.keeps rate whole_rate,
        )
        (a, b, c, d, refl)

-- The exact tax of the lines, in hundredths of a percent of a hundredth.
abbrev pub exact_vat : List InvoiceItem → ℕ
exact_vat [] = 0
exact_vat (line ∷ lines) = line.line_subtotal * line.vat_rate + exact_vat lines

abbrev pub exact_subtotal : List InvoiceItem → ℕ
exact_subtotal [] = 0
exact_subtotal (line ∷ lines) = line.unit_price * line.quantity + exact_subtotal lines

-- Over `n` lines the subtotal and the tax are each within `n` half hundredths of the exact sums.
pub IsNear : ℕ → List InvoiceItem → Type 0
IsNear n lines =
    (sum_subtotals lines * 100 ≤ exact_subtotal lines + 50 * n)
    × (exact_subtotal lines ≤ sum_subtotals lines * 100 + 50 * n)
    × (sum_vat lines * 10_000 ≤ exact_vat lines + 5000 * n)
    × (exact_vat lines ≤ sum_vat lines * 10_000 + 5000 * n)

cons-IsNear :
    (line : InvoiceItem) (lines : List InvoiceItem) (n : ℕ)
    → IsNearest line
    → IsNear n lines
    → IsNear (suc n) (line ∷ lines)
unfolding IsNearest IsNear sum_subtotals sum_vat
cons-IsNear line lines n (a, b, c, d, e) (p, q, r, s) =
    (omega arith, omega arith, omega arith, omega arith)

-- Over lines whose prices and quantities have at most two decimals, at a VAT rate that has at most two
-- decimals in percent, the stored subtotals add up to within half a hundredth for each line of the
-- exact sum of price times quantity, and the stored taxes to within half a hundredth for each line of
-- the exact tax on the stored subtotals. A column is assumed to keep a number that needs no more
-- decimals than it has.
pub resolve_lines-IsNear :
    (x : External) (vat : Amount) (catalogue : Table CatalogueItem) (inputs : List LineInput)
    → IsColumn x
    → IsWhole vat
    → AreWholeLines inputs
    → IsNear (length inputs) (resolve_lines x vat catalogue inputs)
unfolding resolve_lines IsNear sum_subtotals sum_vat
resolve_lines-IsNear x vat catalogue [] columns v _ =
    (omega arith, omega arith, omega arith, omega arith)
resolve_lines-IsNear x vat catalogue (input ∷ inputs) columns v (w, ws) =
    cons-IsNear (resolve_line x vat catalogue input) (resolve_lines x vat catalogue inputs)
      (length inputs) (resolve_line-IsNearest x columns vat v catalogue input w)
      (resolve_lines-IsNear x vat catalogue inputs columns v ws)

-- No tax is withheld if it does not apply. If it does, it is refused at any rate but 5 and 10 percent,
-- and at those it is rounded to the nearest hundredth and is at most the subtotal.
pub WhtIsRight : ℕ → Bool → Option ℕ → Option Wht → Type 0
WhtIsRight subtotal false rate result = result ≡ some (record { rate = none; amount = 0 })
WhtIsRight subtotal true rate none = (rate ≢ some 5) × (rate ≢ some 10)
WhtIsRight subtotal true rate (some wht) =
    (r : ℕ) × (rate ≡ some r)
    × ((r ≡ 5) ⊎ (r ≡ 10))
    × (wht.rate ≡ some r)
    × (wht.amount * 100 ≤ subtotal * r + 50)
    × (subtotal * r + 50 < wht.amount * 100 + 100)
    × (wht.amount ≤ subtotal)

five_or_ten : (r : ℕ) → (r == 5 || r == 10) ≡ true → (r ≡ 5) ⊎ (r ≡ 10)
five_or_ten r h = elim (Bool-cases (r == 5)) [
  | inl five ↦ inl ((==_iff r 5).0 five)
  | inr other ↦ inr (ground arith)
]

-- Withholding tax that does not apply is nothing. If it applies, it is refused at no rate and at any
-- rate but 5 and 10 percent; at those it is returned with its rate, rounded to the nearest hundredth,
-- a half upwards, and at most the subtotal.
pub calculate_invoice_wht-IsRight :
    (subtotal : ℕ) (applicable : Bool) (rate : Option ℕ)
    → WhtIsRight subtotal applicable rate (calculate_invoice_wht subtotal applicable rate)
unfolding WhtIsRight calculate_invoice_wht round_half_up
calculate_invoice_wht-IsRight subtotal false rate = refl
calculate_invoice_wht-IsRight subtotal true none = (λ e. cc, λ e. cc)
calculate_invoice_wht-IsRight subtotal true (some r) = elim (Bool-cases (r == 5 || r == 10)) [
  | inl holds ↦
      rw holds (r, refl, five_or_ten r holds, refl, ground arith, ground arith, ground arith)
  | inr fails ↦ rw fails (λ e. ground arith, λ e. ground arith)
]
