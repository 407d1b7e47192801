-- ===== src/Audit/Ordering.antt =====
-- The text of a JSON value does not depend on the order in which its objects hold their entries, so
-- an entry of the audit log can be checked after the database has reordered its metadata.
use sinkronis_backend.Common.{
  true, false, ◌≡◌, refl, sym, ap, ◌∙◌, List, [], ◌∷◌, inl, inr, Bool-cases, not,
}
use sinkronis_backend.Common.Text.{Text}
use sinkronis_backend.Common.Json.{
  Json, array, object, Elements, no_elements, element, Fields, no_fields, field,
}
use sinkronis_backend.Database.{External, AuditLog}
use sinkronis_backend.Audit.Stringify.{insert, sort, stable_stringify, elements, entries}
use sinkronis_backend.Audit.Chain.{audit_payload, build_audit_hash}

-- What `localeCompare` documents of "comes after": it is transitive, and of two texts at most one
-- comes after the other.
pub record IsOrder (x : External) : Type 0 where
  pub trans :
      (a b c : Text)
      → x.comes_after a b ≡ true
      → x.comes_after b c ≡ true
      → x.comes_after a c ≡ true
  pub asym : (a b : Text) → x.comes_after a b ≡ true → x.comes_after b a ≡ false

-- The two keys do not compare as equal.
abbrev pub Differ : External → Text → Text → Type 0
Differ x a b = x.comes_after a b ≡ not (x.comes_after b a)

-- The same value, up to the order of entries whose keys differ in the order, at any depth.
mutual
  pub data SameJson (x : External) : Json → Json → Type 0 where
    same : {v : Json} → SameJson x v v
    same_array : {es gs : Elements} → SameElements x es gs → SameJson x (array es) (array gs)
    same_object : {fs gs : Fields} → Reordered x fs gs → SameJson x (object fs) (object gs)

  pub data SameElements (x : External) : Elements → Elements → Type 0 where
    no_more : SameElements x no_elements no_elements
    one_more :
        {v w : Json} {es gs : Elements}
        → SameJson x v w
        → SameElements x es gs
        → SameElements x (element v es) (element w gs)

  pub data Reordered (x : External) : Fields → Fields → Type 0 where
    done : Reordered x no_fields no_fields
    skip :
        {key : Text} {v w : Json} {fs gs : Fields}
        → SameJson x v w
        → Reordered x fs gs
        → Reordered x (field key v fs) (field key w gs)
    swap :
        {j k : Text} {v w : Json} {fs : Fields}
        → Differ x j k
        → Reordered x (field j v (field k w fs)) (field k w (field j v fs))
    both : {fs gs hs : Fields} → Reordered x fs gs → Reordered x gs hs → Reordered x fs hs

module _ (x : External) (order : IsOrder x) where
  -- An entry that comes first is inserted first or last, to the same effect.
  insert_later :
      (e f : Text × Text) (t : List (Text × Text))
      → x.comes_after f.0 e.0 ≡ true
      → insert x e (insert x f t) ≡ insert x f (insert x e t)
  unfolding insert
  insert_later e f [] later = rw (later, order.asym f.0 e.0 later) refl
  insert_later e f (g ∷ t) later = elim (Bool-cases (x.comes_after e.0 g.0)) [
    | inl e_after ↦
        let f_after = order.trans f.0 e.0 g.0 later e_after in
        rw (f_after, e_after, f_after, insert_later e f t later) refl
    | inr e_before ↦ elim (Bool-cases (x.comes_after f.0 g.0)) [
      | inl f_after ↦ rw (f_after, e_before, later, f_after) refl
      | inr f_before ↦ rw (f_before, order.asym f.0 e.0 later, e_before, later, f_before) refl
    ]
  ]

  insert_swap :
      (e f : Text × Text) (t : List (Text × Text))
      → Differ x e.0 f.0
      → insert x e (insert x f t) ≡ insert x f (insert x e t)
  insert_swap e f t differ = elim (Bool-cases (x.comes_after f.0 e.0)) [
    | inl later ↦ insert_later e f t later
    | inr earlier ↦ sym (insert_later f e t (rw earlier at differ))
  ]

  mutual
    unfolding stable_stringify sort

    pub stable_stringify-SameJson :
        {v w : Json} → SameJson x v w → stable_stringify x v ≡ stable_stringify x w
    stable_stringify-SameJson same = refl
    stable_stringify-SameJson (same_array h) = rw (elements-SameElements h) refl
    stable_stringify-SameJson (same_object h) = rw (sort-Reordered h) refl

    elements-SameElements :
        {es gs : Elements} → SameElements x es gs → elements x es ≡ elements x gs
    elements-SameElements no_more = refl
    elements-SameElements (one_more h hs) =
        rw (stable_stringify-SameJson h, elements-SameElements hs) refl

    sort-Reordered :
        {fs gs : Fields} → Reordered x fs gs → sort x (entries x fs) ≡ sort x (entries x gs)
    sort-Reordered done = refl
    sort-Reordered (skip h hs) = rw (stable_stringify-SameJson h, sort-Reordered hs) refl
    sort-Reordered (swap {j} {k} {v} {w} {fs} differ) =
        insert_swap (j, stable_stringify x v) (k, stable_stringify x w) (sort x (entries x fs))
          differ
    sort-Reordered (both h k) = sort-Reordered h ∙ sort-Reordered k

  -- Of two rows of the audit log that differ in their metadata only, and in it only by the order of
  -- entries whose keys `localeCompare` tells apart, at any depth, the hashes are equal. The order of
  -- keys is transitive and asymmetric.
  pub build_audit_hash-SameJson :
      (row : AuditLog) (metadata : Json)
      → SameJson x row.metadata metadata
      → build_audit_hash x row ≡ build_audit_hash x (record row { metadata = metadata })
  unfolding build_audit_hash audit_payload
  build_audit_hash-SameJson row metadata h =
      let payload : SameJson x (audit_payload row)
          (audit_payload (record row { metadata = metadata })) =
        same_object (
          skip same (
            skip same (
              skip same (
                skip same
                  (skip same (skip same (skip same (skip h (skip same (skip same done)))))))))) in
      ap x.sha256 (stable_stringify-SameJson payload)
