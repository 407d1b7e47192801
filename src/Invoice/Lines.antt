-- ===== src/Invoice/Lines.antt =====
-- `resolveInvoiceLines`: the price, the VAT and the total of each line.
use sinkronis_backend.Common.{
  ℕ, Bool, true, false, Option, none, some, List, [], ◌∷◌, ◌+◌, ◌*◌, ◌==◌, ◌&&◌, all, map,
  if◌then◌else◌,
}
use sinkronis_backend.Common.Text.{Text}
use sinkronis_backend.Common.Amount.{Amount, whole, shift}
use sinkronis_backend.Common.Table.{Table, find}
use sinkronis_backend.Database.{External, Action, CatalogueItem, InvoiceItem, missing, pure, raise}
use sinkronis_backend.Invoice.Amounts.{round_half_up}

-- `InvoiceItemInput`, with price and quantity in hundredths, and any digits below those
pub record LineInput : Type 0 where
  pub catalogue_item_id : Option ℕ
  pub description : Option Text
  pub quantity : Amount
  pub unit_price : Option Amount
  pub vat_applicable : Option Bool

abbrev is_available : ℕ → Option CatalogueItem → Bool
is_available o none = false
is_available o (some item) = item.organization_id == o && item.is_active

-- The catalogue item of a line exists, belongs to the organisation and is active.
abbrev line_found : ℕ → Table CatalogueItem → LineInput → Bool
line_found o catalogue line = elim line.catalogue_item_id [
  | none ↦ true
  | some i ↦ is_available o (find i catalogue)
]

abbrev pub item_of : Table CatalogueItem → LineInput → Option CatalogueItem
item_of catalogue line = elim line.catalogue_item_id [ none ↦ none | some i ↦ find i catalogue ]

-- `given ?? field(item)`, which the validation of a line without an item makes sure of
abbrev pub or_else : {A : Type 0} → Option A → Option CatalogueItem → (CatalogueItem → A) → A → A
or_else (some a) item f a' = a
or_else none (some item) f a' = f item
or_else none none f a' = a'

-- `unitPrice` and `lineVatRate`
abbrev pub line_price : Table CatalogueItem → LineInput → Amount
line_price catalogue line =
    or_else line.unit_price (item_of catalogue line) (λ i. whole i.unit_price) (whole 0)

abbrev pub line_vat_rate : Bool → Amount → Amount
line_vat_rate applicable vat = if applicable then vat else whole 0

-- `lineSubtotal`, of all digits of price and quantity
unfoldable pub price_times : Amount → Amount → ℕ
unfolding round_half_up shift
price_times price quantity =
    round_half_up (price.units * quantity.units) (shift (price.places + quantity.places) 100)

-- `vatAmount`
unfoldable pub vat_on : ℕ → Amount → ℕ
unfolding round_half_up shift
vat_on subtotal rate = round_half_up (subtotal * rate.units) (shift rate.places 10_000)

-- A line of the invoice as it is stored, at a VAT rate in hundredths of a percent.
unfoldable pub resolve_line : External → Amount → Table CatalogueItem → LineInput → InvoiceItem
unfolding price_times vat_on find
resolve_line x vat catalogue line =
    let item = item_of catalogue line in
    let price = line_price catalogue line in
    let subtotal = price_times price line.quantity in
    let applicable = or_else line.vat_applicable item (λ i. i.vat_applicable) false in
    let rate = line_vat_rate applicable vat in
    let tax = vat_on subtotal rate in
    record {
      catalogue_item_id = line.catalogue_item_id;
      description = or_else line.description item (λ i. i.name) [];
      quantity = x.column line.quantity;
      unit_price = x.column price;
      line_subtotal = subtotal;
      vat_applicable = applicable;
      vat_rate = x.column rate;
      vat_amount = tax;
      total = subtotal + tax;
    }

unfoldable pub resolve_lines :
    External → Amount → Table CatalogueItem → List LineInput → List InvoiceItem
unfolding resolve_line
resolve_lines x vat catalogue lines = map (resolve_line x vat catalogue) lines

unfoldable pub all_found : Bool → List InvoiceItem → Action (List InvoiceItem)
all_found true lines = pure lines
all_found false lines = raise missing

unfoldable pub resolve_invoice_lines :
    External → Amount → ℕ → List LineInput → Action (List InvoiceItem)
unfolding resolve_lines
resolve_invoice_lines x vat o lines db =
    let catalogue = db.books.catalogue in
    all_found (all (line_found o catalogue) lines) (resolve_lines x vat catalogue lines) db

unfoldable pub sum_subtotals : List InvoiceItem → ℕ
sum_subtotals [] = 0
sum_subtotals (line ∷ lines) = line.line_subtotal + sum_subtotals lines

unfoldable pub sum_vat : List InvoiceItem → ℕ
sum_vat [] = 0
sum_vat (line ∷ lines) = line.vat_amount + sum_vat lines
