-- ===== src/Invoice/Relations.antt =====
-- The customer, the project and the agent of an invoice: `assertClientOwnership`,
-- `assertProjectRelations`, `assertInvoiceRelations`.
use sinkronis_backend.Common.{
  ℕ, Bool, true, false, Option, none, some, List, ◌==◌, ◌&&◌, not, any, is_set,
}
use sinkronis_backend.Common.Text.{Text, codes, text_eq, starts_with}
use sinkronis_backend.Common.Table.{find}
use sinkronis_backend.Database.{Action, Client, AccountingProject, User, missing, pure, raise, ◌>>◌}

-- `if (!test) throw notFound`
abbrev pub found : Bool → Action (Unit {0})
found true = pure tt
found false = raise missing

abbrev pub is_own_client : ℕ → Option Client → Bool
is_own_client o none = false
is_own_client o (some c) = c.organization_id == o && not (is_set c.archived_at)

abbrev is_active_client : ℕ → Option Client → Bool
is_active_client o none = false
is_active_client o (some c) = c.organization_id == o && c.is_active

abbrev is_own_project : ℕ → ℕ → Option AccountingProject → Bool
is_own_project o client none = false
is_own_project o client (some p) =
    p.organization_id == o && p.client_id == client && not (is_set p.archived_at)

abbrev has_module : Option (List Text) → Bool
has_module none = true
has_module (some modules) = any (text_eq (codes "ACCOUNTING")) modules

abbrev is_agent : ℕ → Option User → Bool
is_agent o none = false
is_agent o (some u) =
    u.organization_id == o
    && u.is_active
    && (any (starts_with (codes "accounting:")) u.permission_keys && has_module u.module_access)

unfoldable pub assert_client_ownership : ℕ → ℕ → Action (Unit {0})
assert_client_ownership o client = λ db. found (is_own_client o (find client db.books.clients)) db

unfoldable pub assert_agent : ℕ → Option ℕ → Action (Unit {0})
unfolding starts_with
assert_agent o none = pure tt
assert_agent o (some agent) = λ db. found (is_agent o (find agent db.books.users)) db

unfoldable pub assert_project_relations : ℕ → ℕ → Option ℕ → Action (Unit {0})
assert_project_relations o client agent = do
  λ db. found (is_active_client o (find client db.books.clients)) db
  assert_agent o agent

unfoldable pub assert_project : ℕ → ℕ → Option ℕ → Action (Unit {0})
assert_project o client none = pure tt
assert_project o client (some project) =
    λ db. found (is_own_project o client (find project db.books.projects)) db

unfoldable pub assert_invoice_agent : ℕ → ℕ → Option ℕ → Action (Unit {0})
assert_invoice_agent o client none = pure tt
assert_invoice_agent o client (some agent) = assert_project_relations o client (some agent)

unfoldable pub assert_invoice_relations : ℕ → ℕ → Option ℕ → Option ℕ → Action (Unit {0})
assert_invoice_relations o client project agent = do
  assert_client_ownership o client
  assert_project o client project
  assert_invoice_agent o client agent
