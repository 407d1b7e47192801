-- ===== src/Integrity/Described.antt =====
-- What the balance checks of src/core/financial-integrity-scanner.ts mean, described row by row without
-- the functions that compute it.
use mathlib.Core.Path.{subst}
use sinkronis_backend.Common.{
  ℕ, sym, ◌↔◌, ◌⊎◌, ◌≡◌, refl, ◌≢◌, [], ◌∷◌, none, some, ◌==◌, arith, inl, inr, Bool-cases,
  Option-cases, ==_iff, false, true,
}
use sinkronis_backend.Common.Int.{ℤ, pos, ◌+ℤ◌, ◌-ℤ◌}
use sinkronis_backend.Common.Table.{Table, sum_of}
use sinkronis_backend.Database.{
  Db, Settlement, Status, prepared, reserved, provider_processing, unknown, succeeded, failed,
  reversed, WalletTransaction, Direction, debit, credit, inflow, outflow, adjustment,
}
use sinkronis_backend.Integrity.Checks.{
  is_active, held, signed_amount, entered, active_sum, expected_balance,
}

-- The rows of a table add up, each with the amount that a relation gives it.
pub data SumsTo {V : Type 0} (Counts : V → ℤ → Type 0) : Table V → ℤ → Type 0 where
  no_rows : SumsTo Counts [] (pos 0)
  one_row :
      {i : ℕ} {v : V} {rest : Table V} {n m : ℤ}
      → Counts v n
      → SumsTo Counts rest m
      → SumsTo Counts ((i, v) ∷ rest) (n +ℤ m)

-- The statuses between the reservation and the end of a settlement.
pub data IsOpen : Status → Type 0 where
  is_reserved : IsOpen reserved
  is_processing : IsOpen provider_processing
  is_unknown : IsOpen unknown

pub data IsEnded : Status → Type 0 where
  is_prepared : IsEnded prepared
  has_succeeded : IsEnded succeeded
  has_failed : IsEnded failed
  is_reversed : IsEnded reversed

-- What a settlement holds of the wallet `k`: its amount while it is open, has been reserved and has
-- not been released, and nothing otherwise.
pub data Holds (k : ℕ) (s : Settlement) : ℤ → Type 0 where
  holds :
      {t : ℕ}
      → s.wallet_account_id ≡ k
      → IsOpen s.status
      → s.reserved_at ≡ some t
      → s.reservation_released_at ≡ none
      → Holds k s s.amount
  of_other_wallet : s.wallet_account_id ≢ k → Holds k s (pos 0)
  ended : IsEnded s.status → Holds k s (pos 0)
  never_reserved : s.reserved_at ≡ none → Holds k s (pos 0)
  released : {t : ℕ} → s.reservation_released_at ≡ some t → Holds k s (pos 0)

pub data IsIncoming : Direction → Type 0 where
  by_credit : IsIncoming credit
  by_inflow : IsIncoming inflow

pub data IsOutgoing : Direction → Type 0 where
  by_debit : IsOutgoing debit
  by_outflow : IsOutgoing outflow

-- What a ledger row adds to the balance of the wallet `k`.
pub data Enters (k : ℕ) (r : WalletTransaction) : ℤ → Type 0 where
  gained : r.wallet_account_id ≡ k → IsIncoming r.direction → Enters k r r.amount
  lost : r.wallet_account_id ≡ k → IsOutgoing r.direction → Enters k r (pos 0 -ℤ r.amount)
  adjusted : r.direction ≡ adjustment → Enters k r (pos 0)
  elsewhere : r.wallet_account_id ≢ k → Enters k r (pos 0)

open-is_active : {s : Status} → IsOpen s → is_active s ≡ true
open-is_active is_reserved = refl
open-is_active is_processing = refl
open-is_active is_unknown = refl

ended-is_active : {s : Status} → IsEnded s → is_active s ≡ false
ended-is_active is_prepared = refl
ended-is_active has_succeeded = refl
ended-is_active has_failed = refl
ended-is_active is_reversed = refl

incoming-signed : {d : Direction} (a : ℤ) → IsIncoming d → signed_amount d a ≡ a
incoming-signed a by_credit = refl
incoming-signed a by_inflow = refl

outgoing-signed : {d : Direction} (a : ℤ) → IsOutgoing d → signed_amount d a ≡ pos 0 -ℤ a
outgoing-signed a by_debit = refl
outgoing-signed a by_outflow = refl

not_same : (a k : ℕ) → a ≢ k → (a == k) ≡ false
not_same a k apart = elim (Bool-cases (a == k)) [
  | inl same ↦ elim (apart ((==_iff a k).0 same)) [ ]
  | inr different ↦ different
]

apart_of : (a k : ℕ) → (a == k) ≡ false → a ≢ k
apart_of a k different same = ground arith

Holds-held : {k : ℕ} (s : Settlement) {n : ℤ} → Holds k s n → n ≡ held k s
Holds-held {k} s (holds same opened reserved_once unreleased) =
    rw ((==_iff s.wallet_account_id k).1 same, open-is_active opened, reserved_once, unreleased)
      refl
Holds-held {k} s (of_other_wallet apart) = rw (not_same s.wallet_account_id k apart) refl
Holds-held s (ended over) = ground (arith, ended-is_active over)
Holds-held s (never_reserved never) = ground (arith, never)
Holds-held s (released given_back) = ground (arith, given_back)

Enters-entered : {k : ℕ} (r : WalletTransaction) {n : ℤ} → Enters k r n → n ≡ entered k r
Enters-entered {k} r (gained same incoming) =
    rw ((==_iff r.wallet_account_id k).1 same, incoming-signed r.amount incoming) refl
Enters-entered {k} r (lost same outgoing) =
    rw ((==_iff r.wallet_account_id k).1 same, outgoing-signed r.amount outgoing) refl
Enters-entered r (adjusted kind) = ground (arith, kind)
Enters-entered {k} r (elsewhere apart) = rw (not_same r.wallet_account_id k apart) refl

SumsTo-sum :
    {V : Type 0} {Counts : V → ℤ → Type 0} (f : V → ℤ)
    → ((v : V) (n : ℤ) → Counts v n → n ≡ f v)
    → (t : Table V) (n : ℤ) → SumsTo Counts t n
    → n ≡ sum_of f t
unfolding sum_of
SumsTo-sum f counts t n no_rows = refl
SumsTo-sum f counts _ _ (one_row {i} {v} {rest} {n} {m} here below) =
    rw (counts v n here, SumsTo-sum f counts rest m below) refl

sum-SumsTo :
    {V : Type 0} {Counts : V → ℤ → Type 0} (f : V → ℤ)
    → ((v : V) → Counts v (f v))
    → (t : Table V) → SumsTo Counts t (sum_of f t)
unfolding sum_of
sum-SumsTo f counts [] = no_rows
sum-SumsTo f counts ((i, v) ∷ rest) = one_row (counts v) (sum-SumsTo f counts rest)

open_or_ended : (s : Status) → IsOpen s ⊎ IsEnded s
open_or_ended prepared = inr is_prepared
open_or_ended reserved = inl is_reserved
open_or_ended provider_processing = inl is_processing
open_or_ended unknown = inl is_unknown
open_or_ended succeeded = inr has_succeeded
open_or_ended failed = inr has_failed
open_or_ended reversed = inr is_reversed

some_hold : (k : ℕ) (s : Settlement) → (n : ℤ) × Holds k s n
some_hold k s = elim (Bool-cases (s.wallet_account_id == k)) [
  | inr apart ↦ (pos 0, of_other_wallet (apart_of s.wallet_account_id k apart))
  | inl same ↦ elim (open_or_ended s.status) [
    | inr over ↦ (pos 0, ended over)
    | inl opened ↦ elim (Option-cases s.reserved_at) [
      | inl never ↦ (pos 0, never_reserved never)
      | inr (_, at_once) ↦ elim (Option-cases s.reservation_released_at) [
        | inr (_, given_back) ↦ (pos 0, released given_back)
        | inl kept ↦ (s.amount, holds ((==_iff s.wallet_account_id k).0 same) opened at_once kept)
      ]
    ]
  ]
]

held-Holds : (k : ℕ) (s : Settlement) → Holds k s (held k s)
held-Holds k s = let (n, h) = some_hold k s in subst (λ m. Holds k s m) (Holds-held s h) h

some_entry : (k : ℕ) (r : WalletTransaction) → (n : ℤ) × Enters k r n
some_entry k r = elim (Bool-cases (r.wallet_account_id == k)) [
  | inr apart ↦ (pos 0, elsewhere (apart_of r.wallet_account_id k apart))
  | inl same ↦ by_direction ((==_iff r.wallet_account_id k).0 same) (kinds r.direction)
]
  where
    kinds : (d : Direction) → IsIncoming d ⊎ (IsOutgoing d ⊎ (d ≡ adjustment))
    kinds credit = inl by_credit
    kinds inflow = inl by_inflow
    kinds debit = inr (inl by_debit)
    kinds outflow = inr (inl by_outflow)
    kinds adjustment = inr (inr refl)

    by_direction :
        r.wallet_account_id ≡ k
        → IsIncoming r.direction ⊎ (IsOutgoing r.direction ⊎ (r.direction ≡ adjustment))
        → (n : ℤ) × Enters k r n
    by_direction same (inl incoming) = (r.amount, gained same incoming)
    by_direction same (inr (inl outgoing)) = (pos 0 -ℤ r.amount, lost same outgoing)
    by_direction same (inr (inr kind)) = (pos 0, adjusted kind)

entered-Enters : (k : ℕ) (r : WalletTransaction) → Enters k r (entered k r)
entered-Enters k r = let (n, h) = some_entry k r in subst (λ m. Enters k r m) (Enters-entered r h) h

-- The sums of the scanner are those described, and no others.
pub active_sum_iff :
    (k : ℕ) (db : Db) (n : ℤ) → SumsTo (Holds k) db.settlements n ↔ (n ≡ active_sum k db)
unfolding active_sum
active_sum_iff k db n = (
  SumsTo-sum (held k) (λ s _. Holds-held s) db.settlements n,
  λ e.
      subst (SumsTo (Holds k) db.settlements) (sym e)
        (sum-SumsTo (held k) (held-Holds k) db.settlements),
)

pub expected_balance_iff :
    (k : ℕ) (db : Db) (n : ℤ) → SumsTo (Enters k) db.ledger n ↔ (n ≡ expected_balance k db)
unfolding expected_balance
expected_balance_iff k db n = (
  SumsTo-sum (entered k) (λ r _. Enters-entered r) db.ledger n,
  λ e.
      subst (SumsTo (Enters k) db.ledger) (sym e)
        (sum-SumsTo (entered k) (entered-Enters k) db.ledger),
)
