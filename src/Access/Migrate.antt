-- ===== src/Access/Migrate.antt =====
-- src/db/migrate-legacy-role-permissions.ts: the legacy permissions of roles are replaced by
-- canonical ones. The tables are those of permissions, by id, of roles, and of the permissions
-- assigned to roles, as pairs of ids.
use sinkronis_backend.Common.{
  ℕ, Bool, true, false, Option, none, some, List, [], ◌∷◌, ◌++◌, ◌+◌, ◌==◌, ◌&&◌, ◌||◌, not, any,
  filter, if◌then◌else◌,
}
use sinkronis_backend.Common.Text.{Text, codes, text_eq, starts_with}
use sinkronis_backend.Common.Table.{Table, find, find_where}

pub record Role : Type 0 where
  pub is_system : Bool

pub record Roles : Type 0 where
  pub permission_keys : Table Text
  pub roles : Table Role
  pub assignments : List (ℕ × ℕ)

-- `s.endsWith(suffix)`
unfoldable pub ends_with : Text → Text → Bool
ends_with suffix [] = text_eq suffix []
ends_with suffix (c ∷ s) = text_eq suffix (c ∷ s) || ends_with suffix s

unfoldable pub includes : Text → List Text → Bool
includes key keys = any (text_eq key) keys

-- `key.split(":")`, with the part read so far
unfoldable pub split_from : Text → Text → List Text
split_from part [] = part ∷ []
split_from part (c ∷ s) =
    let next = split_from [] s in
    let longer = split_from (part ++ c ∷ []) s in if c == 58 then part ∷ next else longer

abbrev pub view_key : Text → Text → Text
view_key module_name resource = module_name ++ codes ":" ++ resource ++ codes ":view"

abbrev pub family : Text → Text → Text
family module_name resource = module_name ++ codes ":" ++ resource ++ codes ":"

module _ (canonical : List Text) where
  abbrev replacements_of : Text → Text → Text → List Text
  replacements_of module_name resource action =
      if text_eq action (codes "read")
      then (if includes (view_key module_name resource) canonical
          then view_key module_name resource ∷ []
          else [])
      else if text_eq action (codes "manage")
      then filter (starts_with (family module_name resource)) canonical
      else []

  -- Each of the first three parts is there and not empty.
  abbrev of_parts : List Text → List Text
  of_parts ((a ∷ module_name) ∷ (b ∷ resource) ∷ (c ∷ action) ∷ _) =
      replacements_of (a ∷ module_name) (b ∷ resource) (c ∷ action)
  of_parts _ = []

  unfoldable pub resolve_replacement_keys : Text → List Text
  unfolding split_from filter
  resolve_replacement_keys key = of_parts (split_from [] key)

  abbrev pub is_legacy_key : Text → Bool
  is_legacy_key key =
      not (includes key canonical)
      && (ends_with (codes ":manage") key || ends_with (codes ":read") key)

  -- `createMany({ skipDuplicates: true })`; the ids are made up from `fresh` on
  unfoldable pub create_permissions : ℕ → List Text → Table Text → Table Text
  unfolding find_where
  create_permissions fresh [] t = t
  create_permissions fresh (key ∷ keys) t = elim (find_where (text_eq key) t) [
    | some _ ↦ create_permissions (fresh + 1) keys t
    | none ↦ create_permissions (fresh + 1) keys (t ++ (fresh, key) ∷ [])
  ]

  unfoldable pub legacy_ids : Table Text → List ℕ
  legacy_ids [] = []
  legacy_ids ((i, key) ∷ t) =
      let rest = legacy_ids t in if is_legacy_key key then i ∷ rest else rest

  abbrev id_of : Option (ℕ × Text) → List ℕ
  id_of none = []
  id_of (some (i, _)) = i ∷ []

  -- The ids of the keys that are stored.
  unfoldable pub ids_of : Table Text → List Text → List ℕ
  unfolding find_where
  ids_of t [] = []
  ids_of t (key ∷ keys) = id_of (find_where (text_eq key) t) ++ ids_of t keys

  -- `legacyPermissionIdToReplacementIds.get(id) ?? []`
  unfoldable pub replacement_ids : Table Text → ℕ → List ℕ
  replacement_ids t i = elim (find i t) [
    | none ↦ []
    | some key ↦ if is_legacy_key key then ids_of t (resolve_replacement_keys key) else []
  ]

-- `{ permissionId: { in: ids } }`
unfoldable pub is_in : ℕ → List ℕ → Bool
is_in i [] = false
is_in i (j ∷ js) = i == j || is_in i js

-- The role has the permission.
unfoldable pub has : ℕ → ℕ → List (ℕ × ℕ) → Bool
has role permission [] = false
has role permission ((r, p) ∷ rest) = (role == r && permission == p) || has role permission rest

-- `role: { isSystem: false }`
abbrev pub is_custom : Table Role → ℕ → Bool
is_custom roles r = elim (find r roles) [ none ↦ false | some role ↦ not role.is_system ]

abbrev pub is_legacy_assignment : Table Role → List ℕ → ℕ × ℕ → Bool
is_legacy_assignment roles legacy (r, p) = is_in p legacy && is_custom roles r

-- `createMany({ skipDuplicates: true })` of one role
unfoldable pub assign_all : ℕ → List ℕ → List (ℕ × ℕ) → List (ℕ × ℕ)
unfolding has
assign_all role [] t = t
assign_all role (p ∷ ps) t =
    let kept = assign_all role ps t in
    let added = assign_all role ps (t ++ (role, p) ∷ []) in if has role p t then kept else added

-- The loop over the legacy assignments.
unfoldable pub replace_all : (ℕ → List ℕ) → List (ℕ × ℕ) → List (ℕ × ℕ) → List (ℕ × ℕ)
unfolding assign_all
replace_all replacements [] t = t
replace_all replacements ((r, p) ∷ rest) t =
    replace_all replacements rest (assign_all r (replacements p) t)

module _ (canonical : List Text) (fresh : ℕ) where
  abbrev pub stored_keys : Roles → Table Text
  stored_keys db = create_permissions canonical fresh canonical db.permission_keys

  -- The assignments after the run, for the permissions that are stored.
  unfoldable pub migrate_assignments : Table Text → Table Role → List (ℕ × ℕ) → List (ℕ × ℕ)
  unfolding filter
  migrate_assignments keys roles before =
      let legacy = legacy_ids canonical keys in
      let old = filter (is_legacy_assignment roles legacy) before in
      filter (λ a. not (is_legacy_assignment roles legacy a))
        (replace_all (replacement_ids canonical keys) old before)

  abbrev pub is_empty : List ℕ → Bool
  is_empty [] = true
  is_empty (_ ∷ _) = false

  -- `main`; without a legacy permission it stops early.
  unfoldable pub migrate : Roles → Roles
  unfolding migrate_assignments
  migrate db =
      let keys = stored_keys db in
      record {
        permission_keys = keys;
        roles = db.roles;
        assignments =
            if is_empty (legacy_ids canonical keys)
            then db.assignments
            else migrate_assignments keys db.roles db.assignments;
      }
