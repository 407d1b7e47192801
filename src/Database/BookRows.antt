-- ===== src/Database/BookRows.antt =====
-- The tables of the invoices.
use sinkronis_backend.Common.{ℕ, Bool, Option, List}
use sinkronis_backend.Common.Int.{ℤ}
use sinkronis_backend.Common.Text.{Text}
use sinkronis_backend.Common.Table.{Table}

pub data InvoiceStatus : Type 0 where
  draft sent partially_paid fully_paid void overdue : InvoiceStatus

-- A line of an invoice. A price and an amount are in hundredths, the quantity too, and the rate of
-- the VAT in hundredths of a percent.
pub record InvoiceItem : Type 0 where
  pub catalogue_item_id : Option ℕ
  pub description : Text
  pub quantity : ℕ
  pub unit_price : ℕ
  pub line_subtotal : ℕ
  pub vat_applicable : Bool
  pub vat_rate : ℕ
  pub vat_amount : ℕ
  pub total : ℕ

pub record InvoiceTemplate : Type 0 where
  pub organization_id : ℕ
  pub name : Text
  pub is_default : Bool

-- The rate of the withholding tax is in percent. Only the amount payable can be negative.
pub record Invoice : Type 0 where
  pub organization_id : ℕ
  pub client_id : ℕ
  pub invoice_no : Text
  pub issue_date : ℕ
  pub due_date : Option ℕ
  pub status : InvoiceStatus
  pub subtotal : ℕ
  pub tax_amount : ℕ
  pub total : ℕ
  pub wht_applicable : Bool
  pub wht_rate : Option ℕ
  pub wht_amount : ℕ
  pub amount_payable : ℤ
  pub notes : Option Text
  pub project_id : Option ℕ
  pub assigned_agent_id : Option ℕ
  pub sent_at : Option ℕ
  pub paid_at : Option ℕ
  pub payment_reference : Option Text
  pub template_snapshot : Option InvoiceTemplate
  pub items : List InvoiceItem

pub record InvoicePayment : Type 0 where
  pub organization_id : ℕ
  pub invoice_id : ℕ
  pub reference : Text
  pub amount : ℤ
  pub paid_at : ℕ
  pub notes : Option Text
  pub recorded_by_id : Option ℕ

pub record InvoiceHistory : Type 0 where
  pub organization_id : ℕ
  pub invoice_id : ℕ
  pub status : InvoiceStatus
  pub actor_user_id : Option ℕ
  pub description : Text

pub record Client : Type 0 where
  pub organization_id : ℕ
  pub email : Option Text
  pub is_active : Bool
  pub archived_at : Option ℕ

pub record AccountingProject : Type 0 where
  pub organization_id : ℕ
  pub client_id : ℕ
  pub archived_at : Option ℕ

pub record CatalogueItem : Type 0 where
  pub organization_id : ℕ
  pub name : Text
  pub unit_price : ℕ
  pub vat_applicable : Bool
  pub is_active : Bool

-- The bank details of a user's employee record.
pub record BankDetails : Type 0 where
  pub bank_name : Option Text
  pub bank_code : Option Text
  pub account_number : Option Text
  pub account_name : Option Text

-- A user with the permission keys of its role; `moduleAccess` may not be set.
pub record User : Type 0 where
  pub organization_id : ℕ
  pub is_active : Bool
  pub permission_keys : List Text
  pub module_access : Option (List Text)
  pub employee : Option BankDetails

-- The history is a list, the latest entry first.
pub record Books : Type 0 where
  pub clients : Table Client
  pub projects : Table AccountingProject
  pub catalogue : Table CatalogueItem
  pub users : Table User
  pub templates : Table InvoiceTemplate
  pub invoices : Table Invoice
  pub payments : Table InvoicePayment
  pub history : List InvoiceHistory
