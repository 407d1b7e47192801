-- ===== src/Tests/Audits.antt =====
-- Tests of the audit log.
use sinkronis_backend.Common.{Bool, true, false, ◌≡◌, refl, [], ◌∷◌, none, some, ltb, arith}
use sinkronis_backend.Common.Text.{Text, codes}
use sinkronis_backend.Common.Json.{Json, boolean, array, object, no_elements, no_fields, field}
use sinkronis_backend.Database.{External, AuditLog}
use sinkronis_backend.Audit.{build_audit_hash}
use sinkronis_backend.Audit.Ordering.{IsOrder, same_object, swap, build_audit_hash-SameJson}
use sinkronis_backend.Tests.Samples.{packages}

abbrev after : Text → Text → Bool
after [] t = false
after (a ∷ s) [] = true
after (a ∷ s) (b ∷ t) = ltb b a

abbrev by_first : External
by_first = record packages { comes_after = after }

after_trans : (a b c : Text) → after a b ≡ true → after b c ≡ true → after a c ≡ true
after_trans [] b c h k = ground arith
after_trans (x ∷ a) [] c h k = ground arith
after_trans (x ∷ a) (y ∷ b) [] h k = refl
after_trans (x ∷ a) (y ∷ b) (z ∷ c) h k = ground arith

after_asym : (a b : Text) → after a b ≡ true → after b a ≡ false
after_asym [] b h = ground arith
after_asym (x ∷ a) [] h = refl
after_asym (x ∷ a) (y ∷ b) h = ground arith

by_first-IsOrder : IsOrder by_first
by_first-IsOrder = record { trans = after_trans; asym = after_asym }

abbrev written : Json
written = object (
    field (codes "ip") (boolean true)
      (field (codes "agent") (boolean false) (field (codes "url") (array no_elements) no_fields)))

abbrev read_back : Json
read_back = object (
    field (codes "agent") (boolean false)
      (field (codes "ip") (boolean true) (field (codes "url") (array no_elements) no_fields)))

abbrev login_row : AuditLog
login_row = record {
  organization_id = 7;
  actor_user_id = some 2;
  sequence = 1;
  action = codes "LOGIN";
  resource = codes "USER";
  resource_id = none;
  summary = codes "Signed in";
  metadata = written;
  previous_hash = none;
  hash = [];
  created_at = 0;
}

build_audit_hash-SameJson_example :
    build_audit_hash by_first login_row
    ≡ build_audit_hash by_first (record login_row { metadata = read_back })
build_audit_hash-SameJson_example =
    build_audit_hash-SameJson by_first by_first-IsOrder login_row read_back
      (same_object (swap refl))
