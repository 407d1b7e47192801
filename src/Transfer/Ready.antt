-- ===== src/Transfer/Ready.antt =====
-- Updates of a settlement that leave its money: they keep the agreement of the tables, and that every
-- settlement is regular.
use sinkronis_backend.Common.{ℕ, Bool, false, ◌≡◌, refl, some, arith, inl, inr}
use sinkronis_backend.Common.Int.{ℤ, pos, ◌≤ℤ◌, ◌+ℤ◌, ◌-ℤ◌, int_laws}
use sinkronis_backend.Common.Table.{find, put, find-put}
use sinkronis_backend.Database.{
  Db, Settlement, Returns, weaken, update_settlement, update_settlement-Returns,
  update_settlement_where, update_settlement_where-Returns,
}
use sinkronis_backend.Integrity.Checks.{held}
use sinkronis_backend.Integrity.Sums.{IsSound, settlement-IsSoundBy, settle-IsSoundBy}
use sinkronis_backend.Transfer.Soundness.{is_orphaned}

-- The amount is not negative, and a reservation that is made and not released belongs to an active
-- status.
abbrev pub IsRegular : Settlement → Type 0
IsRegular s = (pos 0 ≤ℤ s.amount) × (is_orphaned s ≡ false)

abbrev pub AreRegular : Db → Type 0
AreRegular db = (k : ℕ) (s : Settlement) → find k db.settlements ≡ some s → IsRegular s

abbrev pub Ready : Db → Type 0
Ready db = IsSound db × AreRegular db

-- An update that a regular settlement survives, and that leaves what it holds.
abbrev pub KeepsMoney : (Settlement → Settlement) → Type 0
KeepsMoney f =
    (s : Settlement) → IsRegular s → IsRegular (f s) × ((j : ℕ) → held j (f s) ≡ held j s)

same_held : (a b : ℤ) → b ≡ a → pos 0 +ℤ a -ℤ b ≡ pos 0
same_held a b e = rw e (omega int_laws)

put-Ready :
    (i : ℕ) (f : Settlement → Settlement) (s : Settlement) (db : Db)
    → KeepsMoney f
    → find i db.settlements ≡ some s
    → Ready db
    → Ready (record db { settlements = put i (f s) db.settlements })
put-Ready i f s db keeps found (sound, regular) =
    let (regular', same) = keeps s (regular i s found) in
    (
      settle-IsSoundBy _ (λ j. same_held (held j s) (held j (f s)) (same j)) (λ j. refl)
          (settlement-IsSoundBy db i s (f s) sound found),
      λ k r e. ground (arith, find-put i k (f s) db.settlements, regular k r, regular'),
    )

pub update-Ready :
    (i : ℕ) (f : Settlement → Settlement) (db : Db)
    → KeepsMoney f
    → Ready db
    → Returns Ready (λ _. Ready) (update_settlement i f db)
update-Ready i f db keeps ready =
    weaken (update_settlement-Returns i f db)
      (λ _ _ (s, _, (found, w)). rw w (put-Ready i f s db keeps found ready)) (λ _ w. rw w ready)

pub update_where-Ready :
    (i : ℕ) (p : Settlement → Bool) (f : Settlement → Settlement) (db : Db)
    → KeepsMoney f
    → Ready db
    → Returns Ready (λ _. Ready) (update_settlement_where i p f db)
update_where-Ready i p f db keeps ready =
    weaken (update_settlement_where-Returns i p f db)
      (λ _ _ q. elim q [
        | inl (_, w) ↦ rw w ready
        | inr (s, _, _, (found, w)) ↦ rw w (put-Ready i f s db keeps found ready)
      ])
      (λ _ w. rw w ready)

-- An update that leaves what any settlement holds.
pub update_where-IsSound :
    (i : ℕ) (p : Settlement → Bool) (f : Settlement → Settlement) (db : Db)
    → ((j : ℕ) (s : Settlement) → held j (f s) ≡ held j s)
    → IsSound db
    → Returns IsSound (λ _. IsSound) (update_settlement_where i p f db)
update_where-IsSound i p f db keeps sound =
    weaken (update_settlement_where-Returns i p f db)
      (λ _ _ q. elim q [
        | inl (_, w) ↦ rw w sound
        | inr (s, _, _, (found, w)) ↦ rw w (
            settle-IsSoundBy _ (λ j. same_held (held j s) (held j (f s)) (keeps j s)) (λ j. refl)
              (settlement-IsSoundBy db i s (f s) sound found))
      ])
      (λ _ w. rw w sound)
