-- ===== src/Database/Effects.antt =====
-- What the writes of Database/Write.antt do when they return; when they raise nothing is written.
use sinkronis_backend.Common.{
  ℕ, Bool, true, ◌≡◌, refl, none, some, inl, inr, Bool-cases, Option-cases, ◌⊎◌,
}
use sinkronis_backend.Common.Table.{find, put, any_other}
use sinkronis_backend.Database.Rows.{Db, Wallet, Settlement, WalletTransaction}
use sinkronis_backend.Database.Write.{
  create_settlement, create_ledger, update_settlement, update_settlement_where,
  settlements_conflict, ledger_conflict, update_wallet,
}
use sinkronis_backend.Database.Outcome.{Returns, returns, raises}

-- The settlement `i` was `s` and is now `f s`; nothing else was written.
abbrev pub Updated : ℕ → (Settlement → Settlement) → Settlement → Db → Db → Type 0
Updated i f s db db' =
    (find i db.settlements ≡ some s)
    × (db' ≡ record db { settlements = put i (f s) db.settlements })

pub update_settlement-Returns :
    (i : ℕ) (f : Settlement → Settlement) (db : Db)
    → Returns
        (λ db'. db' ≡ db)
        (λ row db'. (s : Settlement) × (row ≡ f s) × Updated i f s db db')
        (update_settlement i f db)
unfolding update_settlement
update_settlement-Returns i f db = elim (Option-cases (find i db.settlements)) [
  | inl absent ↦ rw (absent, update_settlement) (raises refl)
  | inr (s, e) ↦ elim (Bool-cases (any_other i (settlements_conflict (f s)) db.settlements)) [
    | inl taken ↦ rw (e, taken, update_settlement) (raises refl)
    | inr free ↦ rw (e, free, update_settlement) (returns (s, refl, (refl, refl)))
  ]
]

-- Either no row passed the test, or it passed and was rewritten.
pub update_settlement_where-Returns :
    (i : ℕ) (p : Settlement → Bool) (f : Settlement → Settlement) (db : Db)
    → Returns
        (λ db'. db' ≡ db)
        (λ n db'.
          ((n ≡ 0) × (db' ≡ db))
          ⊎ ((s : Settlement) × (n ≡ 1) × (p s ≡ true) × Updated i f s db db'))
        (update_settlement_where i p f db)
unfolding update_settlement_where
update_settlement_where-Returns i p f db = elim (Option-cases (find i db.settlements)) [
  | inl absent ↦ rw (absent, update_settlement_where) (returns (inl (refl, refl)))
  | inr (s, e) ↦ elim (Bool-cases (p s)) [
    | inr fails ↦ rw (e, fails, update_settlement_where) (returns (inl (refl, refl)))
    | inl holds ↦ elim (Bool-cases (any_other i (settlements_conflict (f s)) db.settlements)) [
      | inl taken ↦ rw (e, holds, taken, update_settlement_where) (raises refl)
      | inr free ↦
          rw (e, holds, free, update_settlement_where)
            (returns (inr (s, refl, holds, (refl, refl))))
    ]
  ]
]

pub create_settlement-Returns :
    (i : ℕ) (row : Settlement) (db : Db)
    → Returns
        (λ db'. db' ≡ db)
        (λ r db'.
          (r ≡ row)
          × (find i db.settlements ≡ none)
          × (db' ≡ record db { settlements = put i row db.settlements }))
        (create_settlement i row db)
unfolding create_settlement
create_settlement-Returns i row db = elim (Option-cases (find i db.settlements)) [
  | inr (s, e) ↦ rw (e, create_settlement) (raises refl)
  | inl absent ↦ elim (Bool-cases (any_other i (settlements_conflict row) db.settlements)) [
    | inl taken ↦ rw (absent, taken, create_settlement) (raises refl)
    | inr free ↦ rw (absent, free, create_settlement) (returns (refl, refl, refl))
  ]
]

pub create_ledger-Returns :
    (i : ℕ) (row : WalletTransaction) (db : Db)
    → Returns
        (λ db'. db' ≡ db)
        (λ r db'.
          (r ≡ i) × (find i db.ledger ≡ none) × (db' ≡ record db { ledger = put i row db.ledger }))
        (create_ledger i row db)
unfolding create_ledger
create_ledger-Returns i row db = elim (Option-cases (find i db.ledger)) [
  | inr (s, e) ↦ rw (e, create_ledger) (raises refl)
  | inl absent ↦ elim (Bool-cases (any_other i (ledger_conflict row) db.ledger)) [
    | inl taken ↦ rw (absent, taken, create_ledger) (raises refl)
    | inr free ↦ rw (absent, free, create_ledger) (returns (refl, refl, refl))
  ]
]

pub update_wallet-Returns :
    (k : ℕ) (f : Wallet → Wallet) (db : Db)
    → Returns
        (λ db'. db' ≡ db)
        (λ r db'.
          (w : Wallet) × (r ≡ f w)
          × (find k db.wallets ≡ some w)
          × (db' ≡ record db { wallets = put k (f w) db.wallets }))
        (update_wallet k f db)
unfolding update_wallet
update_wallet-Returns k f db = elim (Option-cases (find k db.wallets)) [
  | inl absent ↦ rw (absent, update_wallet) (raises refl)
  | inr (w, e) ↦ rw (e, update_wallet) (returns (w, refl, refl, refl))
]
