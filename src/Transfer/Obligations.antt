-- ===== src/Transfer/Obligations.antt =====
-- Marking an obligation paid touches the business tables only.
use sinkronis_backend.Common.{ℕ, Bool, true, false, refl, ◌==◌, inl, inr, Bool-cases, Option-cases}
use sinkronis_backend.Common.Table.{find}
use sinkronis_backend.Database.{
  Db, Action, Settlement, PaymentRequest, Payslip, PayrollRun, SourceType,
  accounting_payment_request, payroll_payslip, other_source, Returns, returns, raises, bind-Returns,
  weaken, ensure-Returns, resume, update_request_where, update_payslip_where, update_run_where,
  update_run, accounting_not_eligible, payroll_not_eligible,
}
use sinkronis_backend.Settlement.Soundness.{SameMoney}
use sinkronis_backend.Transfer.Result.{aggregate_of, update_payroll_aggregate, claim_obligation}

-- A call that leaves wallets, settlements and ledger alone.
abbrev pub IsBusiness : {A : Type 0} → Action A → Type 0
IsBusiness m = (db : Db) → Returns (λ _. Unit {0}) (λ _ db'. SameMoney db db') (m db)

pub SameMoney-refl : (db : Db) → SameMoney db db
SameMoney-refl db = record { wallets = refl; settlements = refl; ledger = refl }

pub SameMoney-trans : {a b c : Db} → SameMoney a b → SameMoney b c → SameMoney a c
SameMoney-trans p q = record {
  wallets = cc (p.wallets, q.wallets);
  settlements = cc (p.settlements, q.settlements);
  ledger = cc (p.ledger, q.ledger);
}

pub update_request_where-IsBusiness :
    (k : ℕ) (p : PaymentRequest → Bool) (f : PaymentRequest → PaymentRequest)
    → IsBusiness (update_request_where k p f)
unfolding update_request_where
update_request_where-IsBusiness k p f db = elim (Option-cases (find k db.payment_requests)) [
  | inl absent ↦ rw (absent, update_request_where) (returns (SameMoney-refl db))
  | inr (r, e) ↦ elim (Bool-cases (p r)) [
    | inl t ↦
        rw (e, t, update_request_where)
          (returns (record { wallets = refl; settlements = refl; ledger = refl }))
    | inr t ↦ rw (e, t, update_request_where) (returns (SameMoney-refl db))
  ]
]

pub update_payslip_where-IsBusiness :
    (k : ℕ) (p : Payslip → Bool) (f : Payslip → Payslip) → IsBusiness (update_payslip_where k p f)
unfolding update_payslip_where
update_payslip_where-IsBusiness k p f db = elim (Option-cases (find k db.payslips)) [
  | inl absent ↦ rw (absent, update_payslip_where) (returns (SameMoney-refl db))
  | inr (r, e) ↦ elim (Bool-cases (p r)) [
    | inl t ↦
        rw (e, t, update_payslip_where)
          (returns (record { wallets = refl; settlements = refl; ledger = refl }))
    | inr t ↦ rw (e, t, update_payslip_where) (returns (SameMoney-refl db))
  ]
]

update_run_where-IsBusiness :
    (k : ℕ) (p : PayrollRun → Bool) (f : PayrollRun → PayrollRun)
    → IsBusiness (update_run_where k p f)
unfolding update_run_where
update_run_where-IsBusiness k p f db = elim (Option-cases (find k db.payroll_runs)) [
  | inl absent ↦ rw (absent, update_run_where) (returns (SameMoney-refl db))
  | inr (r, e) ↦ elim (Bool-cases (p r)) [
    | inl t ↦
        rw (e, t, update_run_where)
          (returns (record { wallets = refl; settlements = refl; ledger = refl }))
    | inr t ↦ rw (e, t, update_run_where) (returns (SameMoney-refl db))
  ]
]

update_run-IsBusiness : (k : ℕ) (f : PayrollRun → PayrollRun) → IsBusiness (update_run k f)
unfolding update_run
update_run-IsBusiness k f db = elim (Option-cases (find k db.payroll_runs)) [
  | inl absent ↦ rw (absent, update_run) (raises tt)
  | inr (r, e) ↦
      rw (e, update_run) (returns (record { wallets = refl; settlements = refl; ledger = refl }))
]

aggregate_of-IsBusiness :
    (now : ℕ) (successful : Bool) (slip : Payslip) → IsBusiness (aggregate_of now successful slip)
unfolding aggregate_of resume
aggregate_of-IsBusiness now true slip db = update_run-IsBusiness _ _ db
aggregate_of-IsBusiness now false slip db =
    bind-Returns (update_run_where-IsBusiness _ _ _ db) λ _ _ same. returns same

pub update_payroll_aggregate-IsBusiness :
    (now k : ℕ) (successful : Bool) → IsBusiness (update_payroll_aggregate now k successful)
unfolding update_payroll_aggregate
update_payroll_aggregate-IsBusiness now k successful db = elim (Option-cases (find k db.payslips)) [
  | inl absent ↦ rw (absent, update_payroll_aggregate) (returns (SameMoney-refl db))
  | inr (slip, e) ↦
      rw (e, update_payroll_aggregate) (aggregate_of-IsBusiness now successful slip db)
]

pub claim_obligation-IsBusiness :
    (now : ℕ) (s : Settlement) (t : SourceType) → IsBusiness (claim_obligation now s t)
unfolding claim_obligation
claim_obligation-IsBusiness now s accounting_payment_request db =
    bind-Returns (update_request_where-IsBusiness _ _ _ db) λ n db' same.
      weaken (ensure-Returns {E = λ _. Unit {0}} (n == 1) accounting_not_eligible db' tt)
        (λ _ _ q. rw q.1 same) (λ _ _. tt)
claim_obligation-IsBusiness now s payroll_payslip db =
    bind-Returns (update_payslip_where-IsBusiness _ _ _ db) λ n db' same.
      bind-Returns (ensure-Returns {E = λ _. Unit {0}} (n == 1) payroll_not_eligible db' tt)
        λ _ db2 q. rw q.1 (
          weaken (update_payroll_aggregate-IsBusiness now s.source_id true db')
            (λ _ _ r. SameMoney-trans same r) (λ _ _. tt))
claim_obligation-IsBusiness now s (other_source _) db = returns (SameMoney-refl db)
