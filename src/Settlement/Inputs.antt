-- ===== src/Settlement/Inputs.antt =====
-- What the settlement functions take, and src/core/payroll-wallet-incident-pause.ts. The values that
-- the platform makes up in a call (the time, ids, references) come in as `Fresh`; the clock does not
-- tick inside a call.
use sinkronis_backend.Common.{ℕ, Bool, false, none, ◌==◌, ◌&&◌, not, if◌then◌else◌}
use sinkronis_backend.Common.Int.{ℤ}
use sinkronis_backend.Common.Text.{Text, text_eq, codes}
use sinkronis_backend.Common.Table.{find}
use sinkronis_backend.Database.{
  Action, Error, p2002, conflict, Conflict, External, Settlement, SourceType, source_eq,
  wallet_maintenance, ensure, require, missing, pure, raise, gets, Lease, ◌>>=◌,
}

pub record Source : Type 0 where
  pub organization_id : ℕ
  pub wallet_account_id : ℕ
  pub source_type : SourceType
  pub source_id : ℕ
  pub amount : ℤ
  pub currency : Text

pub record ManualInput : Type 0 where
  pub idempotency_key : Text
  pub external_reference : Text
  pub settled_at : ℕ

pub record Fresh : Type 0 where
  pub now : ℕ
  pub settlement_id : ℕ
  pub ledger_id : ℕ
  -- `makeReference()`
  pub reference : Text

abbrev pub incident_wallet_fingerprint : Text
incident_wallet_fingerprint = codes "fcefcb648dfd"

abbrev pub incident_wallet_mutations_paused : Bool
incident_wallet_mutations_paused = false

unfoldable pub assert_incident_wallet_mutation_allowed : External → ℕ → ℕ → Action (Unit {0})
assert_incident_wallet_mutation_allowed x organization_id k =
    ensure
      (not (
        incident_wallet_mutations_paused
        && text_eq (x.wallet_fingerprint organization_id k) incident_wallet_fingerprint))
      wallet_maintenance

abbrev pub is_source : Source → Settlement → Bool
is_source source s =
    s.organization_id == source.organization_id
    && (source_eq s.source_type source.source_type && s.source_id == source.source_id)

-- `findFirst({ where: { id, organizationId } })`
unfoldable pub owned_settlement : ℕ → ℕ → Action Settlement
owned_settlement organization_id i = do
  s ← require (← gets (λ db. find i db.settlements)) missing
  if s.organization_id == organization_id then pure s else raise missing

abbrev pub no_lease : Lease
no_lease = record {
  claim_token = none;
  claimed_at = none;
  expires_at = none;
  attempts = 0;
  last_error = none;
}

-- `if (error.code === "P2002") throw conflict(c); throw error;`
abbrev pub p2002_as : {A : Type 0} → Conflict → Error → Action A
p2002_as c p2002 = raise (conflict c)
p2002_as c e = raise e
