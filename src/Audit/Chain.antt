-- ===== src/Audit/Chain.antt =====
-- `createAuditLog` of src/modules/admin/admin.audit.ts.
use sinkronis_backend.Common.{
  ℕ, Bool, true, false, Option, none, some, [], ◌∷◌, ◌+◌, ◌==◌, ◌&&◌, not, any, if◌then◌else◌,
}
use sinkronis_backend.Common.Text.{Text, codes, text_eq}
use sinkronis_backend.Common.Json.{
  Json, null, boolean, number, string, object, Fields, no_fields, field,
}
use sinkronis_backend.Common.Decimal.{decimal}
use sinkronis_backend.Common.Date.{iso_string}
use sinkronis_backend.Common.Table.{find, put}
use sinkronis_backend.Database.{
  External, Db, Action, ok, err, p2002, p2025, AuditLog, AuditLogChain, AuditTrail, gets,
  transaction, ◌>>=◌, ◌>>◌,
}
use sinkronis_backend.Audit.Stringify.{stable_stringify}

-- `CreateAuditLogInput`
pub record AuditInput : Type 0 where
  pub organization_id : ℕ
  pub actor_user_id : Option ℕ
  pub action : Text
  pub resource : Text
  pub resource_id : Option Text
  pub summary : Text
  pub metadata : Option Json

-- What `getRequestContext` knows of the request; both are missing outside of one.
pub record RequestContext : Type 0 where
  pub ip_address : Option Text
  pub user_agent : Option Text

-- What a call makes up for an entry: the request that it serves, and the time.
pub record Stamp : Type 0 where
  pub context : RequestContext
  pub created_at : ℕ

abbrev is_truthy : Option Json → Bool
is_truthy none = false
is_truthy (some null) = false
is_truthy (some (boolean b)) = b
is_truthy (some (number s)) = not (text_eq s (codes "0"))
is_truthy (some (string [])) = false
is_truthy (some _) = true

unfoldable pub get_field : Text → Fields → Option Json
get_field key no_fields = none
get_field key (field k v fs) = if text_eq k key then some v else get_field key fs

unfoldable pub set_field : Text → Json → Fields → Fields
set_field key v no_fields = field key v no_fields
set_field key v (field k w fs) =
    if text_eq k key then field k v fs else field k w (set_field key v fs)

-- `value && !base[key] ? { [key]: value } : {}`, spread over `fs`
unfoldable pub add_missing : Text → Option Text → Fields → Fields → Fields
unfolding get_field set_field
add_missing key none base fs = fs
add_missing key (some []) base fs = fs
add_missing key (some (c ∷ s)) base fs =
    if is_truthy (get_field key base) then fs else set_field key (string (c ∷ s)) fs

abbrev base_fields : Option Json → Fields
base_fields (some (object fs)) = fs
base_fields _ = no_fields

unfoldable pub merge_audit_metadata : RequestContext → Option Json → Json
unfolding add_missing
merge_audit_metadata context metadata =
    let base = base_fields metadata in
    object (
      add_missing (codes "userAgent") context.user_agent base
        (add_missing (codes "ipAddress") context.ip_address base base))

abbrev or_null : Option Text → Json
or_null none = null
or_null (some s) = string s

abbrev id_or_null : Option ℕ → Json
id_or_null none = null
id_or_null (some i) = string (decimal i)

unfoldable pub audit_payload : AuditLog → Json
audit_payload row = object (
    field (codes "organizationId") (string (decimal row.organization_id)) (
      field (codes "actorUserId") (id_or_null row.actor_user_id) (
        field (codes "sequence") (number (decimal row.sequence)) (
          field (codes "action") (string row.action) (
            field (codes "resource") (string row.resource) (
              field (codes "resourceId") (or_null row.resource_id) (
                field (codes "summary") (string row.summary) (
                  field (codes "metadata") row.metadata (
                    field (codes "previousHash") (or_null row.previous_hash) (
                      field (codes "createdAt") (string (iso_string row.created_at))
                        no_fields))))))))))

-- The hash column is not read.
unfoldable pub build_audit_hash : External → AuditLog → Text
unfolding audit_payload stable_stringify
build_audit_hash x row = x.sha256 (stable_stringify x (audit_payload row))

abbrev pub chain_sequence : Option AuditLogChain → ℕ
chain_sequence none = 0
chain_sequence (some c) = c.sequence

abbrev pub chain_hash : Option AuditLogChain → Option Text
chain_hash none = none
chain_hash (some c) = c.last_hash

-- The row without its hash.
abbrev pub unsealed : AuditInput → Stamp → Option AuditLogChain → AuditLog
unsealed input stamp chain = record {
  organization_id = input.organization_id;
  actor_user_id = input.actor_user_id;
  sequence = chain_sequence chain + 1;
  action = input.action;
  resource = input.resource;
  resource_id = input.resource_id;
  summary = input.summary;
  metadata = merge_audit_metadata stamp.context input.metadata;
  previous_hash = chain_hash chain;
  hash = [];
  created_at = stamp.created_at;
}

abbrev pub sealed : External → AuditLog → AuditLog
sealed x row = record row { hash = build_audit_hash x row }

unfoldable pub next_log : External → AuditInput → Stamp → Option AuditLogChain → AuditLog
next_log x input stamp chain = sealed x (unsealed input stamp chain)

abbrev pub with_audit : AuditTrail → Db → Db
with_audit trail db = record db { audit = trail }

-- The unique constraint on organisation and sequence.
abbrev pub same_place : AuditLog → AuditLog → Bool
same_place a b = a.organization_id == b.organization_id && a.sequence == b.sequence

unfoldable pub create_log : AuditLog → Action (Unit {0})
create_log row db =
    if any (same_place row) db.audit.logs
    then (err p2002, db)
    else (ok tt, with_audit (record { logs = row ∷ db.audit.logs; chains = db.audit.chains }) db)

abbrev pub put_chain : ℕ → AuditLogChain → Db → Db
put_chain o c db = with_audit (record { logs = db.audit.logs; chains = put o c db.audit.chains }) db

-- `upsert` with nothing to update
unfoldable pub upsert_chain : ℕ → Action (Unit {0})
upsert_chain o db = elim (find o db.audit.chains) [
  | none ↦ (ok tt, put_chain o (record { last_hash = none; sequence = 0 }) db)
  | some c ↦ (ok tt, db)
]

unfoldable pub update_chain : ℕ → AuditLogChain → Action (Unit {0})
update_chain o c db = elim (find o db.audit.chains) [
  | none ↦ (err p2025, db)
  | some _ ↦ (ok tt, put_chain o c db)
]

module _ (x : External) (stamp : Stamp) (input : AuditInput) where
  unfoldable pub append_log : AuditLog → Action (Unit {0})
  append_log row = do
    create_log row
    update_chain input.organization_id
        (record { last_hash = some row.hash; sequence = row.sequence })

  unfoldable pub persist_audit_log : Action (Unit {0})
  persist_audit_log = do
    upsert_chain input.organization_id
    chain ← gets (λ db. find input.organization_id db.audit.chains)
    append_log (next_log x input stamp chain)

  -- Without a transaction of the caller.
  unfoldable pub create_audit_log : Action (Unit {0})
  create_audit_log = transaction persist_audit_log

-- `extractEntityId`; a missing value is `none`
unfoldable pub extract_entity_id : Option Json → Option Text
unfolding get_field
extract_entity_id (some (object fs)) = elim (get_field (codes "id") fs) [
  | some (string (c ∷ s)) ↦ some (c ∷ s)
  | _ ↦ none
]
extract_entity_id _ = none
