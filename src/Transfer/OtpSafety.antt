-- ===== src/Transfer/OtpSafety.antt =====
-- Finalising a one-time code moves no money, and approval of a transfer is only given for what a
-- settlement holds.
use mathlib.Core.Option.{some-injective}
use sinkronis_backend.Common.{
  ℕ, Bool, true, false, ◌≡◌, refl, ap, ◌∙◌, Option, none, some, ◌==◌, ◌&&◌, not, is_set, inl, inr,
  &&-true, Option-cases,
}
use sinkronis_backend.Common.Int.{ℤ, eqb_ℤ_iff}
use sinkronis_backend.Common.Text.{Text, eq_of_text_eq}
use sinkronis_backend.Common.Table.{find, find_where, find_where-found}
use sinkronis_backend.Database.{
  Db, Error, Result, ok, err, Settlement, Returns, returns, raises, bind-Returns, bind-Same, weaken,
  branch-Returns, catch-Returns, ensure-Returns, update_settlement, update_settlement-Returns,
  update_settlement_where, update_settlement_where-Returns, not_paystack, not_awaiting_otp,
  no_active_reservation, identity_incomplete, otp_in_progress,
}
use sinkronis_backend.Integrity.Checks.{active_reservation}
use sinkronis_backend.Settlement.Manual.{is_manual, is_succeeded, same_reference}
use sinkronis_backend.Settlement.Reads.{owned_settlement-Returns}
use sinkronis_backend.Transfer.Inputs.{
  TransferState, TransferResult, non_conclusive, success, failure, reversal,
}
use sinkronis_backend.Transfer.Payout.{assert_result-Returns}
use sinkronis_backend.Transfer.Provider.{Answers}
use sinkronis_backend.Transfer.Lease.{is_paystack}
use sinkronis_backend.Transfer.Reconcile.{is_ambiguous}
use sinkronis_backend.Transfer.Reconciled.{throw_if-Same, tenant-Same}
use sinkronis_backend.Transfer.Otp.{
  Sent, accepted, given_up, awaits_otp, check_otp_state, send_otp, after_otp_error, finish_otp,
  finalize_provider_settlement_otp, Approval, is_recipient, approves, is_transfer_of,
  decide_approval, validate_paystack_transfer_approval,
}

-- Wallets and ledger are as they were.
abbrev pub NoMoneyMoved : Db → Db → Type 0
NoMoneyMoved db db' = (db'.wallets ≡ db.wallets) × (db'.ledger ≡ db.ledger)

update-NoMoney :
    (i : ℕ) (f : Settlement → Settlement) (db0 db : Db)
    → NoMoneyMoved db0 db
    → Returns
        (NoMoneyMoved db0)
        (λ row db'. NoMoneyMoved db0 db' × ((s : Settlement) × (row ≡ f s)))
        (update_settlement i f db)
update-NoMoney i f db0 db h =
    weaken (update_settlement-Returns i f db) (λ _ _ (s, row, (_, w)). rw w (h, (s, row)))
      (λ _ w. rw w h)

update_where-NoMoney :
    (i : ℕ) (p : Settlement → Bool) (f : Settlement → Settlement) (db0 db : Db)
    → NoMoneyMoved db0 db
    → Returns (NoMoneyMoved db0) (λ _. NoMoneyMoved db0) (update_settlement_where i p f db)
update_where-NoMoney i p f db0 db h =
    weaken (update_settlement_where-Returns i p f db)
      (λ _ _ q. elim q [ inl (_, w) ↦ rw w h | inr (s, _, _, (_, w)) ↦ rw w h ]) (λ _ w. rw w h)

-- The row that a failed call returned has not succeeded.
abbrev Unpaid : Sent → Type 0
Unpaid (accepted result) = Unit {0}
Unpaid (given_up row) = is_succeeded row.status ≡ false

module _ (answers : Answers) (o i now : ℕ) (db0 : Db) where
  check-NoMoney :
      (t : TransferState) (db : Db)
      → NoMoneyMoved db0 db
      → Returns (NoMoneyMoved db0) (λ _. NoMoneyMoved db0) (check_otp_state answers o i now t db)
  unfolding check_otp_state
  check-NoMoney non_conclusive db h = returns h
  check-NoMoney failure db h = bind-Returns (update-NoMoney i _ db0 db h) (λ _ _ q. raises q.0)
  check-NoMoney success db h = bind-Returns (update-NoMoney i _ db0 db h) (λ _ _ q. raises q.0)
  check-NoMoney reversal db h = bind-Returns (update-NoMoney i _ db0 db h) (λ _ _ q. raises q.0)

  answer-NoMoney :
      (r : Result TransferResult) (db : Db)
      → NoMoneyMoved db0 db
      → Returns (NoMoneyMoved db0) (λ _ db'. Unit {0} × (db' ≡ db)) (r, db)
  answer-NoMoney (ok result) db h = returns (tt, refl)
  answer-NoMoney (err e) db h = raises h

  send-NoMoney :
      (s : Settlement) (db : Db)
      → NoMoneyMoved db0 db
      → Returns
          (NoMoneyMoved db0)
          (λ sent db'. Unpaid sent × NoMoneyMoved db0 db')
          (send_otp answers o i now s db)
  unfolding send_otp
  send-NoMoney s db h = bind-Same _ (answer-NoMoney answers.finalize_otp db h) λ result _.
      bind-Same _ (assert_result-Returns s result db h)
        λ _ _. bind-Returns (check-NoMoney result.state db h) (λ _ _ h1. returns (tt, h1))

  after_error-NoMoney :
      (e : Error) (db : Db)
      → NoMoneyMoved db0 db
      → Returns
          (NoMoneyMoved db0)
          (λ sent db'. Unpaid sent × NoMoneyMoved db0 db')
          (after_otp_error answers o i now e db)
  unfolding after_otp_error
  after_error-NoMoney e db h =
      branch-Returns (is_ambiguous e) _ _ db
        (λ _.
          bind-Returns (update-NoMoney i _ db0 db h)
            (λ row _ (h1, (s, same)). returns (rw same refl, h1)))
        (λ _. bind-Returns (update_where-NoMoney i _ _ db0 db h) (λ _ _ h1. raises h1))

  finish-NoMoney :
      (s : Settlement) (sent : Sent) (db : Db)
      → Unpaid sent
      → NoMoneyMoved db0 db
      → Returns
          (NoMoneyMoved db0)
          (λ row db'. (is_succeeded row.status ≡ false) × NoMoneyMoved db0 db')
          (finish_otp answers o i now s sent db)
  unfolding finish_otp
  finish-NoMoney s (accepted result) db unpaid h =
      weaken (update-NoMoney i _ db0 db h) (λ row _ (h1, (r, same)). (rw same refl, h1)) (λ _ q. q)
  finish-NoMoney s (given_up row) db unpaid h = returns (unpaid, h)

-- Finalising a one-time code, whatever the provider answers and however the call ends, leaves the
-- wallets and the ledger as they were, and a settlement that it returns has not succeeded.
pub finalize_otp-moves_no_money :
    (answers : Answers) (o i now : ℕ) (db : Db)
    → Returns
        (NoMoneyMoved db)
        (λ row db'. (is_succeeded row.status ≡ false) × NoMoneyMoved db db')
        (finalize_provider_settlement_otp answers o i now db)
unfolding finalize_provider_settlement_otp
finalize_otp-moves_no_money answers o i now db =
    let same : NoMoneyMoved db db = (refl, refl) in
    bind-Same _ (throw_if-Same answers.blocked db same) λ _ _.
      bind-Same _ (tenant-Same answers o db same) λ _ _.
        bind-Same _ (owned_settlement-Returns o i db same) λ s _.
          bind-Same _
            (ensure-Returns (not (is_manual s.method) && is_paystack s.provider_name) not_paystack
              db same)
            λ _ _. bind-Same _ (ensure-Returns (awaits_otp s) not_awaiting_otp db same) λ _ _.
              bind-Same _
                (ensure-Returns (is_set s.reserved_at && not (is_set s.reservation_released_at))
                  no_active_reservation db same)
                λ _ _.
                  bind-Same _
                    (ensure-Returns (is_set s.transfer_code && is_set s.transfer_reference)
                      identity_incomplete db same)
                    λ _ _. bind-Returns (update_where-NoMoney i _ _ db db same) λ n db1 h1.
                      bind-Same _ (ensure-Returns (n == 1) otp_in_progress db1 h1) λ _ _.
                        bind-Returns
                          (catch-Returns _ _ db1 (send-NoMoney answers o i now db s db1 h1)
                            (after_error-NoMoney answers o i now db))
                          λ sent db2 (unpaid, h2).
                            finish-NoMoney answers o i now db s sent db2 unpaid h2

-- The settlement holds an active reservation of the amount, in the currency, for the transfer with the
-- reference, and is paid by the provider to the recipient, if one is named.
pub record IsApproved (a : Approval) (s : Settlement) : Type 0 where
  pub active : active_reservation s ≡ true
  pub of_amount : a.amount ≡ some s.amount
  pub of_currency : a.currency ≡ some s.currency
  pub of_transfer : (r : Text) × (a.reference ≡ some r) × (s.transfer_reference ≡ some r)
  pub by_provider : is_paystack s.provider_name ≡ true
  pub to_recipient : (q : Text) → a.recipient ≡ some q → s.recipient_reference ≡ some q

same_reference-some : (r : Option Text) (t : Text) → same_reference r t ≡ true → r ≡ some t
same_reference-some none t h = cc
same_reference-some (some r) t h = ap some (eq_of_text_eq r t h)

approves-IsApproved :
    (r : Text) (m : ℤ) (c : Text) (recipient : Option Text) (s : Settlement)
    → approves s m c recipient ≡ true
    → is_transfer_of r s ≡ true
    → IsApproved
        (record { reference = some r; amount = some m; currency = some c; recipient = recipient })
        s
approves-IsApproved r m c recipient s approval_holds transfer =
    let (active, rest) = &&-true _ _ approval_holds in
    let (amount, rest') = &&-true _ _ rest in
    let (currency, to) = &&-true _ _ rest' in
    let (provider, reference) = &&-true _ _ transfer in
    record {
      active = active;
      of_amount = ap some ((eqb_ℤ_iff m s.amount).0 amount);
      of_currency = ap some (eq_of_text_eq c s.currency currency);
      of_transfer = (r, refl, same_reference-some s.transfer_reference r reference);
      by_provider = provider;
      to_recipient = named recipient to;
    }
  where
    named :
        (recipient : Option Text)
        → is_recipient recipient s.recipient_reference ≡ true
        → (q : Text) → recipient ≡ some q
        → s.recipient_reference ≡ some q
    named none to q e = cc
    named (some p) to q e =
        same_reference-some s.recipient_reference p to ∙ ap some (some-injective _ _ e)

approved :
    (r : Option Text) (m : Option ℤ) (c recipient : Option Text) (db : Db)
    → decide_approval r m c recipient db ≡ true
    → (k : ℕ) × (s : Settlement) × (find k db.settlements ≡ some s)
      × IsApproved (record { reference = r; amount = m; currency = c; recipient = recipient }) s
unfolding decide_approval
approved none m c recipient db h = cc
approved (some r) none c recipient db h = cc
approved (some r) (some m) none recipient db h = cc
approved (some r) (some m) (some c) recipient db h =
    elim (Option-cases (find_where (is_transfer_of r) db.settlements)) [
      | inl absent ↦ let gone : false ≡ true = rw absent at h in cc
      | inr ((k, s), there) ↦
          let approval_holds : approves s m c recipient ≡ true = rw there at h in
          let (found, transfer) = find_where-found (is_transfer_of r) db.settlements there in
          (k, s, found, approves-IsApproved r m c recipient s approval_holds transfer)
    ]

-- A transfer is approved only if some settlement that the provider pays has the transfer reference of
-- the approval, its amount and its currency, holds an active reservation, and goes to the recipient
-- that the approval names, if it names one.
pub approval-is_held :
    (a : Approval) (db : Db)
    → validate_paystack_transfer_approval a db ≡ true
    → (k : ℕ) × (s : Settlement) × (find k db.settlements ≡ some s) × IsApproved a s
unfolding validate_paystack_transfer_approval
approval-is_held a db h = approved a.reference a.amount a.currency a.recipient db h
