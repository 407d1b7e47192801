-- ===== src/Database/AuditRows.antt =====
-- The tables of the audit log.
use sinkronis_backend.Common.{ℕ, Option, List}
use sinkronis_backend.Common.Text.{Text}
use sinkronis_backend.Common.Table.{Table}
use sinkronis_backend.Common.Json.{Json}

pub record AuditLog : Type 0 where
  pub organization_id : ℕ
  pub actor_user_id : Option ℕ
  pub sequence : ℕ
  pub action : Text
  pub resource : Text
  pub resource_id : Option Text
  pub summary : Text
  pub metadata : Json
  pub previous_hash : Option Text
  pub hash : Text
  pub created_at : ℕ

-- The head of the chain of an organisation, which is the key of the row.
pub record AuditLogChain : Type 0 where
  pub last_hash : Option Text
  pub sequence : ℕ

-- The entries, the latest first.
pub record AuditTrail : Type 0 where
  pub logs : List AuditLog
  pub chains : Table AuditLogChain
