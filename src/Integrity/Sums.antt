-- ===== src/Integrity/Sums.antt =====
-- The four critical balance findings of the scanner stay away: the invariant behind them, and how it
-- moves when a wallet, a settlement and the ledger change together.
use sinkronis_backend.Common.{◌+◌, ℕ, ◌≡◌, some, none, ◌==◌, if◌then◌else◌, arith}
use sinkronis_backend.Common.Int.{ℤ, pos, pos_part, neg_part, ◌+ℤ◌, ◌-ℤ◌, ◌≤ℤ◌, int_laws}
use sinkronis_backend.Common.Table.{find, put, find-put, sum_of, sum_of-put, sum_of-put_new}
use sinkronis_backend.Database.{Db, Wallet, Settlement, WalletTransaction}
use sinkronis_backend.Integrity.Checks.{held, entered, active_sum, expected_balance}

-- In the middle of a transaction a wallet's reserved balance and balance may be ahead of the sums, by
-- `dr` and `dl`.
pub record IsBalancedBy (dr dl : ℤ) (k : ℕ) (w : Wallet) (db : Db) : Type 0 where
  pub reserved_is_held : active_sum k db +ℤ dr ≡ w.reserved_balance
  pub within_balance : w.reserved_balance ≤ℤ w.balance
  pub ledgered : expected_balance k db +ℤ dl ≡ w.balance

abbrev pub IsSoundBy : (ℕ → ℤ) → (ℕ → ℤ) → Db → Type 0
IsSoundBy dr dl db =
    (k : ℕ) (w : Wallet) → find k db.wallets ≡ some w → IsBalancedBy (dr k) (dl k) k w db

abbrev pub nothing : ℕ → ℤ
nothing j = pos 0

-- An amount at one wallet.
abbrev pub at : ℕ → ℤ → ℕ → ℤ
at k d j = if k == j then d else pos 0

-- Every wallet's reserved balance is what its active settlements hold, is covered by the balance, and
-- the balance is what the ledger says.
abbrev pub IsSound : Db → Type 0
IsSound = IsSoundBy nothing nothing

add_nothing : (a : ℤ) → a +ℤ pos 0 ≡ a
add_nothing a = omega int_laws

add_assoc : (a b c : ℤ) → a +ℤ (b +ℤ c) ≡ a +ℤ b +ℤ c
add_assoc a b c = omega int_laws

rebalance :
    (sum sum' d old new target : ℤ)
    → sum' +ℤ old ≡ sum +ℤ new
    → sum +ℤ d ≡ target
    → sum' +ℤ (d +ℤ old -ℤ new) ≡ target
rebalance sum sum' d old new target p q =
    let a : pos_part (sum' +ℤ old) + neg_part (sum +ℤ new)
        ≡ pos_part (sum +ℤ new) + neg_part (sum' +ℤ old) =
      rw p in
    rw (← q) (omega (int_laws, a))

retake :
    (sum sum' d new target : ℤ)
    → sum' ≡ sum +ℤ new
    → sum +ℤ d ≡ target
    → sum' +ℤ (d -ℤ new) ≡ target
retake sum sum' d new target p q = rw (p, ← q) (omega int_laws)

-- A wallet is rewritten.
pub wallet-IsSoundBy :
    {dr dl : ℕ → ℤ} (db : Db) (k : ℕ) (w w' : Wallet) (r l : ℤ)
    → IsSoundBy dr dl db
    → find k db.wallets ≡ some w
    → w'.reserved_balance ≡ w.reserved_balance +ℤ r
    → w'.balance ≡ w.balance +ℤ l
    → (w.reserved_balance ≤ℤ w.balance → w'.reserved_balance ≤ℤ w'.balance)
    → IsSoundBy
        (λ j. dr j +ℤ at k r j)
        (λ j. dl j +ℤ at k l j)
        (record db { wallets = put k w' db.wallets })
unfolding active_sum expected_balance
wallet-IsSoundBy {dr} {dl} db k w w' r l sound found hr hl covered j v e = ground (
  arith,
  find-put k j w' db.wallets,
  sound k w found,
  sound j v,
  add_nothing (dr j),
  add_nothing (dl j),
  add_assoc (sum_of (held j) db.settlements) (dr j) r,
  add_assoc (sum_of (entered j) db.ledger) (dl j) l,
)

-- A settlement is rewritten: what it held before and after goes to the slack.
pub settlement-IsSoundBy :
    {dr dl : ℕ → ℤ} (db : Db) (i : ℕ) (s s' : Settlement)
    → IsSoundBy dr dl db
    → find i db.settlements ≡ some s
    → IsSoundBy
        (λ j. dr j +ℤ held j s -ℤ held j s')
        dl
        (record db { settlements = put i s' db.settlements })
unfolding active_sum expected_balance
settlement-IsSoundBy {dr} {dl} db i s s' sound found j v e =
    let moved = sum_of-put (held j) i s' s db.settlements found in
    let b = sound j v e in
    record {
      reserved_is_held = rebalance _ _ _ _ _ _ moved b.reserved_is_held;
      within_balance = b.within_balance;
      ledgered = b.ledgered;
    }

pub new_settlement-IsSoundBy :
    {dr dl : ℕ → ℤ} (db : Db) (i : ℕ) (s : Settlement)
    → IsSoundBy dr dl db
    → find i db.settlements ≡ none
    → IsSoundBy (λ j. dr j -ℤ held j s) dl (record db { settlements = put i s db.settlements })
unfolding active_sum expected_balance
new_settlement-IsSoundBy {dr} {dl} db i s sound absent j v e =
    let moved = sum_of-put_new (held j) i s db.settlements absent in
    let b = sound j v e in
    record {
      reserved_is_held = retake _ _ _ _ _ moved b.reserved_is_held;
      within_balance = b.within_balance;
      ledgered = b.ledgered;
    }

pub entry-IsSoundBy :
    {dr dl : ℕ → ℤ} (db : Db) (i : ℕ) (row : WalletTransaction)
    → IsSoundBy dr dl db
    → find i db.ledger ≡ none
    → IsSoundBy dr (λ j. dl j -ℤ entered j row) (record db { ledger = put i row db.ledger })
unfolding active_sum expected_balance
entry-IsSoundBy {dr} {dl} db i row sound absent j v e =
    let moved = sum_of-put_new (entered j) i row db.ledger absent in
    let b = sound j v e in
    record {
      reserved_is_held = b.reserved_is_held;
      within_balance = b.within_balance;
      ledgered = retake _ _ _ _ _ moved b.ledgered;
    }

-- The slack is only a way to write what remains to be done.
pub settle-IsSoundBy :
    {dr dl er el : ℕ → ℤ} (db : Db)
    → ((j : ℕ) → dr j ≡ er j)
    → ((j : ℕ) → dl j ≡ el j)
    → IsSoundBy dr dl db
    → IsSoundBy er el db
settle-IsSoundBy db p q sound j v e =
    let b = sound j v e in
    record {
      reserved_is_held = rw (← p j) b.reserved_is_held;
      within_balance = b.within_balance;
      ledgered = rw (← q j) b.ledgered;
    }
