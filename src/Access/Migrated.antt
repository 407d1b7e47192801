-- ===== src/Access/Migrated.antt =====
-- What every role has after the migration.
use sinkronis_backend.Common.{
  ℕ, Bool, true, false, ◌≡◌, refl, List, [], ◌∷◌, ◌++◌, ◌==◌, ◌&&◌, ◌||◌, not, filter, arith, inl,
  inr, Bool-cases, ==_iff, &&-true, if◌then◌else◌,
}
use sinkronis_backend.Common.Text.{Text}
use sinkronis_backend.Common.Table.{Table}
use sinkronis_backend.Access.Migrate.{
  Role, Roles, legacy_ids, replacement_ids, is_in, has, is_custom, is_legacy_assignment, assign_all,
  replace_all, stored_keys, migrate_assignments, migrate, is_empty,
}

-- Some assignment of the role is among those to replace, and the permission is one of its
-- replacements.
pub gains : ℕ → ℕ → (ℕ → List ℕ) → List (ℕ × ℕ) → Bool
gains role permission f [] = false
gains role permission f ((r, p) ∷ rest) =
    (role == r && is_in permission (f p)) || gains role permission f rest

has-append :
    (role p r q : ℕ) (t : List (ℕ × ℕ))
    → has role p (t ++ (r, q) ∷ []) ≡ (has role p t || (role == r && p == q))
unfolding has
has-append role p r q [] = ground arith
has-append role p r q ((a, b) ∷ t) = ground (arith, has-append role p r q t)

absorb :
    (role p r q : ℕ) (ps : List ℕ) (t : List (ℕ × ℕ))
    → has r q t ≡ true
    → (has role p t || (role == r && is_in p ps))
      ≡ (has role p t || (role == r && is_in p (q ∷ ps)))
unfolding is_in
absorb role p r q ps t old = elim (Bool-cases (role == r && p == q)) [
  | inl same ↦
      let (role_is, p_is) = &&-true (role == r) (p == q) same in
      let there : has role p t ≡ true = rw ((==_iff role r).0 role_is, (==_iff p q).0 p_is) old in
      rw there refl
  | inr apart ↦ ground arith
]

has-assign_all :
    (role p r : ℕ) (ps : List ℕ) (t : List (ℕ × ℕ))
    → has role p (assign_all r ps t) ≡ (has role p t || (role == r && is_in p ps))
unfolding assign_all is_in
has-assign_all role p r [] t = ground arith
has-assign_all role p r (q ∷ ps) t = elim (Bool-cases (has r q t)) [
  | inl old ↦ rw (old, has-assign_all role p r ps t) (absorb role p r q ps t old)
  | inr new ↦
      rw (new, has-assign_all role p r ps (t ++ (r, q) ∷ []), has-append role p r q t)
        (ground arith)
]

has-replace_all :
    (role p : ℕ) (f : ℕ → List ℕ) (old t : List (ℕ × ℕ))
    → has role p (replace_all f old t) ≡ (has role p t || gains role p f old)
unfolding replace_all gains
has-replace_all role p f [] t = ground arith
has-replace_all role p f ((r, q) ∷ old) t =
    rw (has-replace_all role p f old (assign_all r (f q) t), has-assign_all role p r (f q) t)
      (ground arith)

-- A filter on pairs keeps a pair that passes it.
has-filter :
    (keep : ℕ × ℕ → Bool) (role p : ℕ) (t : List (ℕ × ℕ))
    → has role p (filter keep t) ≡ (has role p t && keep (role, p))
unfolding has filter
has-filter keep role p [] = refl
has-filter keep role p ((r, q) ∷ t) = elim (Bool-cases (role == r && p == q)) [
  | inl same ↦
      let (role_is, p_is) = &&-true (role == r) (p == q) same in
      rw ((==_iff role r).0 role_is, (==_iff p q).0 p_is)
        (elim (Bool-cases (keep (r, q))) [
          | inl kept ↦ rw (kept, filter) (ground (arith, has-filter keep r q t))
          | inr dropped ↦ rw (dropped, filter) (ground (arith, has-filter keep r q t))
        ])
  | inr apart ↦ elim (Bool-cases (keep (r, q))) [
    | inl kept ↦ rw (kept, filter) (ground (arith, has-filter keep role p t))
    | inr dropped ↦ rw (dropped, filter) (ground (arith, has-filter keep role p t))
  ]
]

-- The role has a legacy permission of which this one is a replacement.
pub deserves : ℕ → ℕ → List ℕ → (ℕ → List ℕ) → List (ℕ × ℕ) → Bool
deserves role permission legacy f [] = false
deserves role permission legacy f ((r, p) ∷ rest) =
    (role == r && (is_in p legacy && is_in permission (f p)))
    || deserves role permission legacy f rest

gains-filter :
    (role p : ℕ) (roles : Table Role) (legacy : List ℕ) (f : ℕ → List ℕ) (t : List (ℕ × ℕ))
    → gains role p f (filter (is_legacy_assignment roles legacy) t)
      ≡ (is_custom roles role && deserves role p legacy f t)
unfolding gains deserves filter
gains-filter role p roles legacy f [] = ground arith
gains-filter role p roles legacy f ((r, q) ∷ t) =
    let rest = gains-filter role p roles legacy f t in
    elim (Bool-cases (role == r)) [
      | inl same ↦
          rw ((==_iff role r).0 same)
            (elim (Bool-cases (is_legacy_assignment roles legacy (r, q))) [
              | inl kept ↦ rw (kept, filter) (ground (arith, gains-filter r p roles legacy f t))
              | inr dropped ↦
                  rw (dropped, filter) (ground (arith, gains-filter r p roles legacy f t))
            ])
      | inr apart ↦ elim (Bool-cases (is_legacy_assignment roles legacy (r, q))) [
        | inl kept ↦ rw (kept, filter) (ground (arith, rest))
        | inr dropped ↦ rw (dropped, filter) (ground (arith, rest))
      ]
    ]

-- The permissions of a role after the migration, from those before.
pub expected : ℕ → ℕ → Table Role → List ℕ → (ℕ → List ℕ) → List (ℕ × ℕ) → Bool
unfolding deserves
expected role permission roles legacy f before =
    if is_custom roles role
    then not (is_in permission legacy)
      && (has role permission before || deserves role permission legacy f before)
    else has role permission before

module _ (canonical : List Text) (fresh : ℕ) where
  migrate_assignments-eq :
      (role p : ℕ) (keys : Table Text) (roles : Table Role) (before : List (ℕ × ℕ))
      → has role p (migrate_assignments canonical fresh keys roles before)
        ≡ expected role p roles (legacy_ids canonical keys) (replacement_ids canonical keys) before
  unfolding migrate_assignments expected
  migrate_assignments-eq role p keys roles before =
      let legacy = legacy_ids canonical keys in
      let f = replacement_ids canonical keys in
      let old = filter (is_legacy_assignment roles legacy) before in
      rw
        (
          has-filter (λ a. not (is_legacy_assignment roles legacy a)) role p
              (replace_all f old before),
          has-replace_all role p f old before,
          gains-filter role p roles legacy f before,
        )
        (ground arith)

  empty_of : (ids : List ℕ) → is_empty canonical fresh ids ≡ true → ids ≡ []
  empty_of [] h = refl
  empty_of (_ ∷ _) h = cc

  nothing_deserved :
      (role p : ℕ) (f : ℕ → List ℕ) (t : List (ℕ × ℕ)) → deserves role p [] f t ≡ false
  unfolding deserves is_in
  nothing_deserved role p f [] = refl
  nothing_deserved role p f ((r, q) ∷ t) = ground (arith, nothing_deserved role p f t)

  expected-none :
      (role p : ℕ) (roles : Table Role) (f : ℕ → List ℕ) (t : List (ℕ × ℕ))
      → has role p t ≡ expected role p roles [] f t
  unfolding expected is_in
  expected-none role p roles f t = ground (arith, nothing_deserved role p f t)

  -- A role of the system keeps what it has. Any other role has, after the run, no legacy permission,
  -- and of the others those it had and the replacements of the legacy permissions that it had.
  pub migrate-refines :
      (db : Roles) (role p : ℕ)
      → let keys = stored_keys canonical fresh db in
        has role p (migrate canonical fresh db).assignments
        ≡ expected role p db.roles
            (legacy_ids canonical keys)
            (replacement_ids canonical keys)
            db.assignments
  unfolding migrate
  migrate-refines db role p =
      let keys = stored_keys canonical fresh db in
      elim (Bool-cases (is_empty canonical fresh (legacy_ids canonical keys))) [
        | inl done ↦
            let none_left = empty_of (legacy_ids canonical keys) done in
            rw none_left
              (expected-none role p db.roles (replacement_ids canonical keys) db.assignments)
        | inr some_left ↦ rw some_left (migrate_assignments-eq role p keys db.roles db.assignments)
      ]
