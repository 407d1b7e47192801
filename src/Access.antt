-- ===== src/Access.antt =====
-- The permissions of roles: src/modules/auth/permissions.ts and
-- src/db/migrate-legacy-role-permissions.ts.
pub mod Permissions
pub mod Migrate
pub mod Migrated
