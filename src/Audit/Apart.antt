-- ===== src/Audit/Apart.antt =====
-- An audit entry touches the trail only.
use sinkronis_backend.Common.{ℕ, any, inl, inr, Bool-cases, Option-cases}
use sinkronis_backend.Common.Table.{find}
use sinkronis_backend.Database.{
  External, Db, AuditLog, AuditLogChain, AuditTrail, Returns, returns, raises, bind-Returns,
  transaction-Returns, resume,
}
use sinkronis_backend.Audit.Chain.{
  AuditInput, Stamp, same_place, with_audit, create_log, upsert_chain, update_chain, append_log,
  persist_audit_log, create_audit_log, next_log,
}

-- A property that does not depend on the trail.
module _ {K : Db → Type 0} (apart : (db : Db) → K db → (t : AuditTrail) → K (with_audit t db)) where
  create_log-Returns : (row : AuditLog) (db : Db) → K db → Returns K (λ _. K) (create_log row db)
  unfolding create_log
  create_log-Returns row db h = elim (Bool-cases (any (same_place row) db.audit.logs)) [
    | inl taken ↦ rw taken (raises h)
    | inr free ↦ rw free (returns (apart db h _))
  ]

  upsert_chain-Returns : (o : ℕ) (db : Db) → K db → Returns K (λ _. K) (upsert_chain o db)
  unfolding upsert_chain
  upsert_chain-Returns o db h = elim (Option-cases (find o db.audit.chains)) [
    | inl absent ↦ rw (upsert_chain, absent) (returns (apart db h _))
    | inr (c, e) ↦ rw (upsert_chain, e) (returns h)
  ]

  update_chain-Returns :
      (o : ℕ) (c : AuditLogChain) (db : Db) → K db → Returns K (λ _. K) (update_chain o c db)
  unfolding update_chain
  update_chain-Returns o c db h = elim (Option-cases (find o db.audit.chains)) [
    | inl absent ↦ rw (update_chain, absent) (raises h)
    | inr (old, e) ↦ rw (update_chain, e) (returns (apart db h _))
  ]

  module _ (x : External) (stamp : Stamp) (input : AuditInput) (db : Db) (h : K db) where
    pub persist_audit_log-Returns : Returns K (λ _. K) (persist_audit_log x stamp input db)
    unfolding persist_audit_log append_log resume
    persist_audit_log-Returns =
        bind-Returns (upsert_chain-Returns input.organization_id db h) λ _ db' h'.
          bind-Returns
            (create_log-Returns
              (next_log x input stamp (find input.organization_id db'.audit.chains)) db' h')
            λ _ db'' h''. update_chain-Returns input.organization_id _ db'' h''

    pub create_audit_log-Returns : Returns K (λ _. K) (create_audit_log x stamp input db)
    unfolding create_audit_log
    create_audit_log-Returns = transaction-Returns _ db h persist_audit_log-Returns
