-- ===== src/Database/Monad.antt =====
-- A call against the database: the result and the tables that it leaves. An exception keeps what was
-- written before it, unless a transaction encloses the call.
use sinkronis_backend.Common.{ℕ, Bool, true, false, Option, none, some}
use sinkronis_backend.Database.Rows.{Db}

-- One constructor for each message of a 409 response.
pub data Conflict : Type 0 where
  currency_mismatch amount_not_positive insufficient_spendable reservation_not_finalized : Conflict
  reservation_not_released wallet_maintenance already_settled settlement_identity_used : Conflict
  no_releasable_reservation not_successful debit_entry_missing reversal_identity_used : Conflict
  provider_not_eligible transfer_mismatch recipient_mismatch accounting_not_eligible : Conflict
  payroll_not_eligible incompatible_terminal only_pending already_decided only_approved : Conflict
  destination_incomplete bank_code_missing request_settled already_reconciling : Conflict
  not_paystack not_awaiting_otp no_active_reservation identity_incomplete otp_in_progress : Conflict
  otp_rejected otp_unexpected initiation_claimed test_tenant_live : Conflict
  wht_rate_invalid wht_not_enabled only_draft_editable only_draft_sent only_draft_deletable :
      Conflict
  funding_reference_used funding_mismatch funding_in_progress : Conflict
  request_exceeds_invoice request_mismatch : Conflict
  customer_email_missing payment_reference_used not_payable exceeds_balance : Conflict

pub data Error : Type 0 where
  conflict : Conflict → Error
  -- a 404 response
  missing : Error
  -- a mail that is not accepted
  mail_failed : Error
  -- a unique constraint is violated
  p2002 : Error
  -- a foreign key is violated
  p2003 : Error
  -- the row to update is not there
  p2025 : Error
  -- a `PaystackProviderError`, with its HTTP status and whether the outcome is unknown
  provider_error : Option ℕ → Bool → Error

pub data Result (A : Type 0) : Type 0 where
  ok : A → Result A
  err : Error → Result A

abbrev pub Action : Type 0 → Type 0
Action A = Db → Result A × Db

-- Shut, so that the rules of `Returns` see where a call binds.
unfoldable pub resume : {A B : Type 0} → Result A × Db → (A → Action B) → Result B × Db
resume (ok a, db) f = f a db
resume (err e, db) f = (err e, db)

infixl 5 ◌>>=◌ ◌>>◌
abbrev pub ◌>>=◌ : {A B : Type 0} → Action A → (A → Action B) → Action B
◌>>=◌ m f db = resume (m db) f

abbrev pub ◌>>◌ : {A B : Type 0} → Action A → Action B → Action B
m >> k = m >>= λ _. k

module _ {A : Type 0} where
  abbrev pub pure : A → Action A
  pure a db = (ok a, db)

  abbrev pub raise : Error → Action A
  raise e db = (err e, db)

  abbrev pub gets : (Db → A) → Action A
  gets f db = (ok (f db), db)

  -- `if (!row) throw e`
  abbrev pub require : Option A → Error → Action A
  require none e = raise e
  require (some a) e = pure a

  unfoldable pub rolled_back : Db → Result A × Db → Result A × Db
  rolled_back db (ok a, db') = (ok a, db')
  rolled_back db (err e, db') = (err e, db)

  -- `prisma.$transaction`: an exception rolls back.
  unfoldable pub transaction : Action A → Action A
  unfolding rolled_back
  transaction m db = rolled_back db (m db)

  unfoldable pub handled : Result A × Db → (Error → Action A) → Result A × Db
  handled (ok a, db) h = (ok a, db)
  handled (err e, db) h = h e db

  -- `try { m } catch (e) { h e }`
  unfoldable pub catch : Action A → (Error → Action A) → Action A
  unfolding handled
  catch m h db = handled (m db) h

-- `if (!test) throw conflict(c)`
abbrev pub ensure : Bool → Conflict → Action (Unit {0})
ensure true c = pure tt
ensure false c = raise (conflict c)
