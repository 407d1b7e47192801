-- ===== src/Settlement/Reads.antt =====
-- The steps of a settlement call that write nothing.
use sinkronis_backend.Common.{ℕ, ◌≡◌, refl, some, ◌==◌, ◌&&◌, not}
use sinkronis_backend.Common.Table.{find}
use sinkronis_backend.Common.Text.{text_eq}
use sinkronis_backend.Database.{
  Db, External, Conflict, Error, conflict, missing, p2002, p2003, p2025, mail_failed,
  provider_error, Returns, returns, raises, bind-Same, weaken, require-Same, ensure-Returns,
  branch-Returns, resume, wallet_maintenance,
}
use sinkronis_backend.Settlement.Inputs.{
  assert_incident_wallet_mutation_allowed, owned_settlement, p2002_as,
  incident_wallet_mutations_paused, incident_wallet_fingerprint,
}

pub assert_incident-Returns :
    {P : Db → Type 0} (x : External) (o k : ℕ) (db : Db)
    → P db
    → Returns P (λ _ db'. Unit {0} × (db' ≡ db)) (assert_incident_wallet_mutation_allowed x o k db)
unfolding assert_incident_wallet_mutation_allowed
assert_incident-Returns x o k db h =
    weaken
      (ensure-Returns
        (not (
          incident_wallet_mutations_paused
          && text_eq (x.wallet_fingerprint o k) incident_wallet_fingerprint))
        wallet_maintenance db h)
      (λ _ _ q. (tt, q.1)) (λ _ p. p)

pub owned_settlement-Returns :
    {P : Db → Type 0} (o i : ℕ) (db : Db)
    → P db
    → Returns P (λ s db'. (find i db.settlements ≡ some s) × (db' ≡ db)) (owned_settlement o i db)
unfolding owned_settlement resume
owned_settlement-Returns o i db h =
    bind-Same _ (require-Same (find i db.settlements) missing db h)
      λ s e. branch-Returns (s.organization_id == o) _ _ db (λ _. returns (e, refl)) (λ _. raises h)

pub p2002_as-Returns :
    {A : Type 0} {P : Db → Type 0} {Q : A → Db → Type 0} (c : Conflict) (e : Error) (db : Db)
    → P db
    → Returns P Q (p2002_as c e db)
p2002_as-Returns c p2002 db h = raises h
p2002_as-Returns c (conflict _) db h = raises h
p2002_as-Returns c missing db h = raises h
p2002_as-Returns c p2025 db h = raises h
p2002_as-Returns c p2003 db h = raises h
p2002_as-Returns c mail_failed db h = raises h
p2002_as-Returns c (provider_error _ _) db h = raises h
