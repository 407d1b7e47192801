-- ===== src/Tests/Accesses.antt =====
-- The theorem on the migration of permissions at a concrete table.
use sinkronis_backend.Common.{true, false, ◌≡◌, [], ◌∷◌}
use sinkronis_backend.Common.Text.{codes}
use sinkronis_backend.Access.Permissions.{permissions}
use sinkronis_backend.Access.Migrate.{Roles, migrate, has, legacy_ids, replacement_ids, stored_keys}
use sinkronis_backend.Access.Migrated.{expected, migrate-refines}

-- The role 1 is one of the system; the role 2 has a legacy permission.
abbrev before : Roles
before = record {
  permission_keys = (10, codes "accounting:invoices:read") ∷ (11, codes "auth:me") ∷ [];
  roles = (1, record { is_system = true }) ∷ (2, record { is_system = false }) ∷ [];
  assignments = (1, 10) ∷ (2, 10) ∷ (2, 11) ∷ [];
}

migrate-refines_example :
    has 2 10 (migrate permissions 100 before).assignments
    ≡ expected 2 10 before.roles
        (legacy_ids permissions (stored_keys permissions 100 before))
        (replacement_ids permissions (stored_keys permissions 100 before))
        before.assignments
migrate-refines_example = migrate-refines permissions 100 before 2 10
