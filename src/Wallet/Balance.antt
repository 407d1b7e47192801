-- ===== src/Wallet/Balance.antt =====
-- What each wallet call of src/core/wallet-integrity.ts does to the tables when it returns; when it
-- raises before its UPDATE has matched it changes nothing.
use sinkronis_backend.Common.{
  ℕ, Bool, true, ◌≡◌, refl, ap, some, inl, inr, ◌&&◌, ◌==◌, Bool-cases, ◌||◌, not, Option-cases,
  &&-true,
}
use sinkronis_backend.Common.Int.{ℤ, ◌+ℤ◌, ◌-ℤ◌, leb_ℤ, int_laws}
use sinkronis_backend.Common.Text.{Text, text_eq}
use sinkronis_backend.Common.Table.{find, put, find-put_self}
use sinkronis_backend.Database.{
  Db, Wallet, Action, Conflict, External, Returns, returns, raises, bind-Returns, weaken, pure,
  ◌>>=◌, ◌>>◌, amount_not_positive, require-Same, ensure-Returns, bind-Same, branch-Returns,
  update_wallet_where, missing, resume,
}
use sinkronis_backend.Wallet.Calls.{
  is_empty, owned_wallet, financial_wallet, change_wallet, assert_financial_currency,
  positive_amount, Debit, reserve_wallet_balance, consume_wallet_reservation,
  release_wallet_reservation, debit_unreserved_wallet, spendable_balance,
  normalize_financial_currency,
}

-- Nothing has been written.
abbrev pub Same : Db → Db → Type 0
Same db db' = db' ≡ db

-- The row `k` was there, passed the test and was rewritten; nothing else was written.
abbrev pub Changed : ℕ → (Wallet → Bool) → (Wallet → Wallet) → Db → Db → Type 0
Changed k p f db db' =
    (w : Wallet) × (find k db.wallets ≡ some w)
    × (p w ≡ true)
    × (db' ≡ record db { wallets = put k (f w) db.wallets })

pub assert_financial_currency-Returns :
    (e a : Text) (db : Db)
    → Returns
        (Same db)
        (λ n db'. (n ≡ normalize_financial_currency e) × Same db db')
        (assert_financial_currency e a db)
unfolding assert_financial_currency
assert_financial_currency-Returns e a db =
    branch-Returns (is_empty n || not (text_eq n (normalize_financial_currency a))) _ _ db
      (λ _. raises refl) (λ _. returns (refl, refl))
  where
    n : Text
    n = normalize_financial_currency e

pub owned_wallet-Returns :
    (o k : ℕ) (db : Db)
    → Returns (Same db) (λ w db'. (find k db.wallets ≡ some w) × Same db db') (owned_wallet o k db)
unfolding owned_wallet resume
owned_wallet-Returns o k db = bind-Same _ (require-Same (find k db.wallets) missing db refl) λ w e.
    branch-Returns (w.organization_id == o) _ _ db (λ _. returns (e, refl)) (λ _. raises refl)

pub financial_wallet-Returns :
    (o k : ℕ) (c : Text) (db : Db)
    → Returns
        (Same db)
        (λ w db'. (find k db.wallets ≡ some w) × Same db db')
        (financial_wallet o k c db)
unfolding financial_wallet
financial_wallet-Returns o k c db =
    bind-Same _ (owned_wallet-Returns o k db) λ w e.
      bind-Same _ (assert_financial_currency-Returns c w.currency db) λ _ _. returns (e, refl)

update_wallet_where-Returns :
    (k : ℕ) (p : Wallet → Bool) (f : Wallet → Wallet) (db : Db)
    → Returns
        (Same db)
        (λ n db'. ((n == 1) ≡ true) → Changed k p f db db')
        (update_wallet_where k p f db)
unfolding update_wallet_where
update_wallet_where-Returns k p f db = elim (Option-cases (find k db.wallets)) [
  | inl absent ↦ rw (absent, update_wallet_where) (returns (λ h. cc))
  | inr (w, e) ↦ elim (Bool-cases (p w)) [
    | inl t ↦ rw (e, t, update_wallet_where) (returns (λ _. (w, refl, t, refl)))
    | inr t ↦ rw (e, t, update_wallet_where) (returns (λ h. cc))
  ]
]

pub change_wallet-Returns :
    (k : ℕ) (p : Wallet → Bool) (f : Wallet → Wallet) (c : Conflict) (db : Db)
    → Returns (λ _. Unit {0}) (λ _. Changed k p f db) (change_wallet k p f c db)
unfolding change_wallet
change_wallet-Returns k p f c db =
    bind-Returns (weaken (update_wallet_where-Returns k p f db) (λ _ _ h. h) (λ _ _. tt)) λ n db' h.
      weaken (ensure-Returns {E = λ _. Unit {0}} (n == 1) c db' tt) (λ _ _ q. rw q.1 (h q.0))
        (λ _ _. tt)

-- The row `k` was rewritten by `f`.
abbrev pub Rewritten : ℕ → (Wallet → Wallet) → Wallet → Db → Db → Type 0
Rewritten k f w db db' =
    (find k db.wallets ≡ some w) × (db' ≡ record db { wallets = put k (f w) db.wallets })

abbrev pub reserve_by : ℤ → Wallet → Wallet
reserve_by amount w = record w { reserved_balance = w.reserved_balance +ℤ amount }

abbrev pub debit_by : ℤ → Wallet → Wallet
debit_by amount w = record w { balance = w.balance -ℤ amount }

abbrev pub consume_by : ℤ → Wallet → Wallet
consume_by amount w = record w {
  balance = w.balance -ℤ amount;
  reserved_balance = w.reserved_balance -ℤ amount;
}

abbrev pub release_by : ℤ → Wallet → Wallet
release_by amount w = record w { reserved_balance = w.reserved_balance -ℤ amount }

-- What a debit reports is what happened to the balance.
abbrev pub Reports : Debit → Wallet → ℤ → Type 0
Reports d w amount = (d.balance_before ≡ w.balance) × (d.balance_after ≡ w.balance -ℤ amount)

sub_add_cancel : (a b : ℤ) → a -ℤ b +ℤ b ≡ a
sub_add_cancel a b = omega int_laws

module _ (x : External) (o k : ℕ) (amount : ℤ) (c : Text) (db : Db) where
  -- The call went through: the amount is positive, the row passed the test `p` and is now `f` of it.
  abbrev pub Applied : (Wallet → Bool) → (Wallet → Wallet) → Wallet → Db → Type 0
  Applied p f w db' = (x.is_positive amount ≡ true) × (p w ≡ true) × Rewritten k f w db db'

  -- The two checks before each UPDATE.
  checked-Returns :
      {B : Type 0} {R : B → Db → Type 0} (m : Action B)
      → (x.is_positive amount ≡ true → Returns (λ _. Unit {0}) R (m db))
      → Returns
          (λ _. Unit {0})
          R
          ((positive_amount x amount
              >> (financial_wallet o k (normalize_financial_currency c) >> m))
            db)
  unfolding positive_amount
  checked-Returns m h =
      bind-Same _ (ensure-Returns (x.is_positive amount) amount_not_positive db tt) λ _ positive.
        bind-Same _
          (weaken (financial_wallet-Returns o k (normalize_financial_currency c) db) (λ _ _ q. q)
            (λ _ _. tt))
          λ _ _. h positive

  pub reserve_wallet_balance-Returns :
      Returns
        (λ _. Unit {0})
        (λ _ db'.
          (w : Wallet) × Applied
            (λ v. leb_ℤ amount (spendable_balance v))
            (reserve_by amount)
            w
            db')
        (reserve_wallet_balance x o k amount c db)
  unfolding reserve_wallet_balance
  reserve_wallet_balance-Returns = checked-Returns _ λ positive.
      weaken (change_wallet-Returns k _ _ _ db)
        (λ _ _ (w, e, t, q). (w, (positive, (&&-true _ _ t).1, (e, q)))) (λ _ _. tt)

  pub release_wallet_reservation-Returns :
      Returns
        (λ _. Unit {0})
        (λ _ db'.
          (w : Wallet) × Applied (λ v. leb_ℤ amount v.reserved_balance) (release_by amount) w db')
        (release_wallet_reservation x o k amount c db)
  unfolding release_wallet_reservation
  release_wallet_reservation-Returns = checked-Returns _ λ positive.
      weaken (change_wallet-Returns k _ _ _ db)
        (λ _ _ (w, e, t, q). (w, (positive, (&&-true _ _ t).1, (e, q)))) (λ _ _. tt)

  -- The row that is read after a debit is the row that was written.
  reported :
      (f : Wallet → Wallet) (w after : Wallet) (db' : Db)
      → Rewritten k f w db db'
      → (f w).balance ≡ w.balance -ℤ amount
      → find k db'.wallets ≡ some after
      → (after.balance +ℤ amount ≡ w.balance) × (after.balance ≡ w.balance -ℤ amount)
  reported f w after db' q b e =
      let same : after ≡ f w =
        cc (ap (λ d. find k d.wallets) q.1, find-put_self k (f w) db.wallets) in
      rw (same, b) (sub_add_cancel w.balance amount, refl)

  debited-Returns :
      (p : Wallet → Bool) (f : Wallet → Wallet) (e : Conflict)
      → ((w : Wallet) → (f w).balance ≡ w.balance -ℤ amount)
      → Returns
          (λ _. Unit {0})
          (λ d db'. (w : Wallet) × (p w ≡ true) × Rewritten k f w db db' × Reports d w amount)
          ((change_wallet k p f e
              >> (financial_wallet o k (normalize_financial_currency c) >>= λ after. pure (record {
                balance_before = after.balance +ℤ amount;
                balance_after = after.balance;
              })))
            db)
  debited-Returns p f e b = bind-Returns (change_wallet-Returns k p f e db) λ _ db' (w, s, t, q).
      bind-Same _
        (weaken (financial_wallet-Returns o k (normalize_financial_currency c) db') (λ _ _ r. r)
          (λ _ _. tt))
        λ after r. returns (w, t, (s, q), reported f w after db' (s, q) (b w) r)

  pub consume_wallet_reservation-Returns :
      Returns
        (λ _. Unit {0})
        (λ d db'.
          (w : Wallet) × Applied
            (λ v. leb_ℤ amount v.balance && leb_ℤ amount v.reserved_balance)
            (consume_by amount)
            w
            db'
          × Reports d w amount)
        (consume_wallet_reservation x o k amount c db)
  unfolding consume_wallet_reservation
  consume_wallet_reservation-Returns = checked-Returns _ λ positive.
      weaken (debited-Returns _ _ _ (λ _. refl))
        (λ _ _ (w, t, q, r). (w, (positive, (&&-true _ _ t).1, q), r)) (λ _ _. tt)

  pub debit_unreserved_wallet-Returns :
      Returns
        (λ _. Unit {0})
        (λ d db'.
          (w : Wallet) × Applied (λ v. leb_ℤ amount (spendable_balance v)) (debit_by amount) w db'
          × Reports d w amount)
        (debit_unreserved_wallet x o k amount c db)
  unfolding debit_unreserved_wallet
  debit_unreserved_wallet-Returns = checked-Returns _ λ positive.
      weaken (debited-Returns _ _ _ (λ _. refl))
        (λ _ _ (w, t, q, r). (w, (positive, (&&-true _ _ t).1, q), r)) (λ _ _. tt)
