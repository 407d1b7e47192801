-- ===== src/Wallet/Calls.antt =====
-- The functions of src/core/wallet-integrity.ts. A raw UPDATE with its conditions and the check of the
-- number of rows that it changed is `change_wallet`.
use sinkronis_backend.Common.{
  ℕ, Bool, ◌==◌, ◌&&◌, ◌||◌, not, if◌then◌else◌, [], ◌∷◌, map, true, false,
}
use sinkronis_backend.Common.Int.{ℤ, ◌+ℤ◌, ◌-ℤ◌, leb_ℤ}
use sinkronis_backend.Common.Text.{Text, text_eq, upper, trim}
use sinkronis_backend.Common.Table.{find}
use sinkronis_backend.Database.{
  Wallet, Action, Conflict, conflict, missing, currency_mismatch, amount_not_positive,
  insufficient_spendable, reservation_not_finalized, reservation_not_released, External, pure,
  raise, gets, require, ensure, ◌>>=◌, ◌>>◌, update_wallet_where,
}

-- `currency.trim().toUpperCase()`
unfoldable pub normalize_financial_currency : Text → Text
normalize_financial_currency c = map upper (trim c)

abbrev pub is_empty : Text → Bool
is_empty [] = true
is_empty (_ ∷ _) = false

unfoldable pub assert_financial_currency : Text → Text → Action Text
assert_financial_currency expected actual =
    let e = normalize_financial_currency expected in
    let a = normalize_financial_currency actual in
    if is_empty e || not (text_eq e a) then raise (conflict currency_mismatch) else pure e

unfoldable pub spendable_balance : Wallet → ℤ
spendable_balance w = w.balance -ℤ w.reserved_balance

-- `findFirst({ where: { id, organizationId } })`
unfoldable pub owned_wallet : ℕ → ℕ → Action Wallet
owned_wallet organization_id k = do
  w ← require (← gets (λ db. find k db.wallets)) missing
  if w.organization_id == organization_id then pure w else raise missing

unfoldable pub financial_wallet : ℕ → ℕ → Text → Action Wallet
financial_wallet organization_id k currency = do
  w ← owned_wallet organization_id k
  assert_financial_currency currency w.currency
  pure w

unfoldable pub change_wallet :
    ℕ → (Wallet → Bool) → (Wallet → Wallet) → Conflict → Action (Unit {0})
change_wallet k p f c = do changed ← update_wallet_where k p f; ensure (changed == 1) c

-- The part of each WHERE clause that names the row.
abbrev pub is_target : ℕ → Text → Wallet → Bool
is_target organization_id currency w =
    w.organization_id == organization_id && text_eq (map upper w.currency) currency

-- What a debit reports: `balanceBefore` and `balanceAfter`.
pub record Debit : Type 0 where
  pub balance_before : ℤ
  pub balance_after : ℤ

module _ (x : External) where
  unfoldable pub positive_amount : ℤ → Action (Unit {0})
  positive_amount amount = ensure (x.is_positive amount) amount_not_positive

  unfoldable pub reserve_wallet_balance : ℕ → ℕ → ℤ → Text → Action (Unit {0})
  reserve_wallet_balance organization_id k amount raw_currency = do
    positive_amount amount
    let currency = normalize_financial_currency raw_currency
    financial_wallet organization_id k currency
    change_wallet k
        (λ w. is_target organization_id currency w && leb_ℤ amount (spendable_balance w))
        (λ w. record w { reserved_balance = w.reserved_balance +ℤ amount }) insufficient_spendable

  unfoldable pub debit_unreserved_wallet : ℕ → ℕ → ℤ → Text → Action Debit
  debit_unreserved_wallet organization_id k amount raw_currency = do
    positive_amount amount
    let currency = normalize_financial_currency raw_currency
    financial_wallet organization_id k currency
    change_wallet k
        (λ w. is_target organization_id currency w && leb_ℤ amount (spendable_balance w))
        (λ w. record w { balance = w.balance -ℤ amount }) insufficient_spendable
    after ← financial_wallet organization_id k currency
    pure (record { balance_before = after.balance +ℤ amount; balance_after = after.balance })

  unfoldable pub consume_wallet_reservation : ℕ → ℕ → ℤ → Text → Action Debit
  consume_wallet_reservation organization_id k amount raw_currency = do
    positive_amount amount
    let currency = normalize_financial_currency raw_currency
    financial_wallet organization_id k currency
    change_wallet k
        (λ w.
          is_target organization_id currency w
          && (leb_ℤ amount w.balance && leb_ℤ amount w.reserved_balance))
        (λ w. record w {
          balance = w.balance -ℤ amount;
          reserved_balance = w.reserved_balance -ℤ amount;
        })
        reservation_not_finalized
    after ← financial_wallet organization_id k currency
    pure (record { balance_before = after.balance +ℤ amount; balance_after = after.balance })

  unfoldable pub release_wallet_reservation : ℕ → ℕ → ℤ → Text → Action (Unit {0})
  release_wallet_reservation organization_id k amount raw_currency = do
    positive_amount amount
    let currency = normalize_financial_currency raw_currency
    financial_wallet organization_id k currency
    change_wallet k (λ w. is_target organization_id currency w && leb_ℤ amount w.reserved_balance)
        (λ w. record w { reserved_balance = w.reserved_balance -ℤ amount }) reservation_not_released
