-- ===== src/Audit.antt =====
-- src/modules/admin/admin.audit.ts: the audit log of each organisation, whose entries are linked by
-- their hashes.
mod Stringify
mod Chain
pub mod Linked
pub mod Ordering
mod Apart
unfoldable pub use Stringify.*
unfoldable pub use Chain.*
pub use Apart.*
