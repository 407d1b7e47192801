-- ===== src/Audit/Linked.antt =====
-- The entries of an organisation are numbered from one, each holds the hash of the one before it, and
-- the head of the chain is the last of them.
use mathlib.Core.Path.{subst}
use sinkronis_backend.Common.{
  ℕ, false, ◌≡◌, refl, Option, none, some, List, [], ◌∷◌, ◌+◌, ◌==◌, ◌<◌, any, arith, inl, inr,
  Bool-cases, Option-cases, ==_iff,
}
use sinkronis_backend.Common.Text.{Text}
use sinkronis_backend.Common.Table.{find, put, find-put, find-put_self, put-put}
use sinkronis_backend.Database.{
  External, Db, AuditLog, AuditLogChain, AuditTrail, ok, resume, transaction, rolled_back,
}
use sinkronis_backend.Audit.Chain.{
  AuditInput, Stamp, audit_payload, build_audit_hash, chain_sequence, chain_hash, next_log,
  same_place, create_log, upsert_chain, update_chain, append_log, persist_audit_log,
  create_audit_log, with_audit, put_chain,
}

-- The hash of the last entry of the organisation, and the number of its entries.
pub data Linked (x : External) (o : ℕ) : Option Text → ℕ → List AuditLog → Type 0 where
  start : Linked x o none 0 []
  link :
      {h : Option Text} {n : ℕ} {row : AuditLog} {rest : List AuditLog}
      → row.organization_id ≡ o
      → row.previous_hash ≡ h
      → row.sequence ≡ n + 1
      → row.hash ≡ build_audit_hash x row
      → Linked x o h n rest
      → Linked x o (some row.hash) (n + 1) (row ∷ rest)
  other :
      {h : Option Text} {n : ℕ} {row : AuditLog} {rest : List AuditLog}
      → (row.organization_id == o) ≡ false
      → Linked x o h n rest
      → Linked x o h n (row ∷ rest)

unfoldable pub IsLinked : External → AuditTrail → Type 0
IsLinked x trail =
    (o : ℕ)
    → Linked x o (chain_hash (find o trail.chains)) (chain_sequence (find o trail.chains))
        trail.logs

-- A number above the last one is free.
any-same_place :
    (x : External) {o n : ℕ} {h : Option Text} {logs : List AuditLog} (row : AuditLog)
    → row.organization_id ≡ o
    → n < row.sequence
    → Linked x o h n logs
    → any (same_place row) logs ≡ false
any-same_place x row e above start = refl
any-same_place x row e above (link own _ number _ rest) =
    ground (arith, any-same_place x row e (omega arith) rest)
any-same_place x row e above (other apart rest) = ground (arith, any-same_place x row e above rest)

-- The trail with one more entry.
abbrev pub appended : External → Stamp → AuditInput → AuditTrail → AuditTrail
appended x stamp input trail =
    let row = next_log x input stamp (find input.organization_id trail.chains) in
    record {
      logs = row ∷ trail.logs;
      chains =
          put input.organization_id (record { last_hash = some row.hash; sequence = row.sequence })
            trail.chains;
    }

abbrev empty_chain : AuditLogChain
empty_chain = record { last_hash = none; sequence = 0 }

module _ (x : External) (stamp : Stamp) (input : AuditInput) where
  next_log-free :
      (trail : AuditTrail)
      → IsLinked x trail
      → any
          (same_place (next_log x input stamp (find input.organization_id trail.chains)))
          trail.logs
        ≡ false
  unfolding next_log IsLinked
  next_log-free trail linked =
      any-same_place x (next_log x input stamp (find input.organization_id trail.chains)) refl
        (omega arith) (linked input.organization_id)

  -- The head of the chain is there, so the entry is added and the head moves.
  append_log-eq :
      (row : AuditLog) (c : AuditLogChain) (trail : AuditTrail) (db : Db)
      → db.audit ≡ trail
      → any (same_place row) trail.logs ≡ false
      → find input.organization_id trail.chains ≡ some c
      → append_log x stamp input row db ≡ (
        ok tt,
        with_audit
            (record {
              logs = row ∷ trail.logs;
              chains =
                  put input.organization_id
                    (record { last_hash = some row.hash; sequence = row.sequence })
                    trail.chains;
            })
            db,
      )
  unfolding append_log create_log update_chain resume
  append_log-eq row c trail db at free there = rw (at, free, update_chain, there) refl

  persist-eq :
      (db : Db)
      → IsLinked x db.audit
      → persist_audit_log x stamp input db
        ≡ (ok tt, with_audit (appended x stamp input db.audit) db)
  unfolding persist_audit_log upsert_chain resume next_log
  persist-eq db linked = elim (Option-cases (find input.organization_id db.audit.chains)) [
    | inl absent ↦
        let there = find-put_self input.organization_id empty_chain db.audit.chains in
        let free = rw absent at (next_log-free db.audit linked) in
        rw
          (
            persist_audit_log,
            upsert_chain,
            absent,
            resume,
            there,
            append_log-eq (next_log x input stamp none) empty_chain
                (put_chain input.organization_id empty_chain db).audit
                (put_chain input.organization_id empty_chain db) refl free there,
            put-put,
          )
          refl
    | inr (c, e) ↦
        rw (persist_audit_log, upsert_chain, e, resume, e)
          (append_log-eq (next_log x input stamp (some c)) c db.audit db refl
            (rw e at (next_log-free db.audit linked)) e)
  ]

  next_log-hash :
      (chain : Option AuditLogChain)
      → (next_log x input stamp chain).hash ≡ build_audit_hash x (next_log x input stamp chain)
  unfolding next_log build_audit_hash audit_payload
  next_log-hash chain = refl

  appended-IsLinked :
      (trail : AuditTrail) → IsLinked x trail → IsLinked x (appended x stamp input trail)
  unfolding IsLinked next_log
  appended-IsLinked trail linked o = elim (Bool-cases (input.organization_id == o)) [
    | inl same ↦
        let head = find input.organization_id trail.chains in
        let e = (==_iff input.organization_id o).0 same in
        rw (find-put input.organization_id o, same)
          (link {row = next_log x input stamp (find input.organization_id trail.chains)} e refl refl
            (next_log-hash head)
            (subst (λ k. Linked x k (chain_hash head) (chain_sequence head) trail.logs) e
              (linked input.organization_id)))
    | inr apart ↦ rw (find-put input.organization_id o, apart) (other apart (linked o))
  ]

  -- In a linked trail a call adds its entry, whatever the trail holds, and the trail stays linked.
  pub create_audit_log-appends :
      (db : Db)
      → IsLinked x db.audit
      → (create_audit_log x stamp input db
          ≡ (ok tt, with_audit (appended x stamp input db.audit) db))
        × IsLinked x (appended x stamp input db.audit)
  unfolding create_audit_log transaction rolled_back
  create_audit_log-appends db linked =
      (rw (persist-eq db linked) refl, appended-IsLinked db.audit linked)
