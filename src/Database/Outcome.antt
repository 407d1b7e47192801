-- ===== src/Database/Outcome.antt =====
-- What holds after a call, as a family with a rule for each construct of the monad: `E` of the tables
-- after an exception, `Q` of the result and the tables after a return.
use sinkronis_backend.Common.{◌≡◌, refl, Bool, true, false, Option, none, some, if◌then◌else◌}
use sinkronis_backend.Database.Rows.{Db}
use sinkronis_backend.Database.Monad.{
  Conflict, Error, Result, ok, err, Action, resume, require, rolled_back, transaction, handled,
  catch, ensure,
}

pub data Returns {A : Type 0} (E : Db → Type 0) (Q : A → Db → Type 0) : Result A × Db → Type 0 where
  returns : {a : A} {db : Db} → Q a db → Returns E Q (ok a, db)
  raises : {e : Error} {db : Db} → E db → Returns E Q (err e, db)

module _ {A : Type 0} {E : Db → Type 0} where
  -- A bind: the second call starts from what the first one left.
  pub bind-Returns :
      {B : Type 0} {Q : A → Db → Type 0} {R : B → Db → Type 0} {r : Result A × Db}
      {f : A → Action B}
      → Returns E Q r
      → ((a : A) (db : Db) → Q a db → Returns E R (f a db))
      → Returns E R (resume r f)
  unfolding resume
  bind-Returns (returns {a = a} {db = db} q) k = k a db q
  bind-Returns (raises e) k = raises e

  pub weaken :
      {Q R : A → Db → Type 0} {E' : Db → Type 0} {r : Result A × Db}
      → Returns E Q r
      → ((a : A) (db : Db) → Q a db → R a db)
      → ((db : Db) → E db → E' db)
      → Returns E' R r
  weaken (returns {a = a} {db = db} q) f g = returns (f a db q)
  weaken (raises {db = db} e) f g = raises (g db e)

  pub require-Returns :
      {Q : A → Db → Type 0} (o : Option A) (e : Error) (db : Db)
      → E db
      → ((a : A) → o ≡ some a → Q a db)
      → Returns E Q (require o e db)
  require-Returns none e db h k = raises h
  require-Returns (some a) e db h k = returns (k a refl)

module _ {A : Type 0} {E : Db → Type 0} where
  -- A call that reads only.
  pub bind-Same :
      {B : Type 0} {P : A → Type 0} {R : B → Db → Type 0} {db : Db} {r : Result A × Db}
      (f : A → Action B)
      → Returns E (λ a db'. P a × (db' ≡ db)) r
      → ((a : A) → P a → Returns E R (f a db))
      → Returns E R (resume r f)
  bind-Same f h k = bind-Returns h (λ a db' q. rw q.1 (k a q.0))

  pub branch-Returns :
      {Q : A → Db → Type 0} (b : Bool) (m n : Action A) (db : Db)
      → (b ≡ true → Returns E Q (m db))
      → (b ≡ false → Returns E Q (n db))
      → Returns E Q ((if b then m else n) db)
  branch-Returns true m n db h k = h refl
  branch-Returns false m n db h k = k refl

  pub require-Same :
      (o : Option A) (e : Error) (db : Db)
      → E db
      → Returns E (λ a db'. (o ≡ some a) × (db' ≡ db)) (require o e db)
  require-Same o e db h = require-Returns o e db h (λ a q. (q, refl))

pub ensure-Returns :
    {E : Db → Type 0} (b : Bool) (c : Conflict) (db : Db)
    → E db
    → Returns E (λ _ db'. (b ≡ true) × (db' ≡ db)) (ensure b c db)
ensure-Returns true c db h = returns (refl, refl)
ensure-Returns false c db h = raises h

module _ {A : Type 0} {Q : A → Db → Type 0} where
  rolled_back-Returns :
      {E F : Db → Type 0} (db : Db) {r : Result A × Db}
      → F db
      → Returns E Q r
      → Returns F Q (rolled_back db r)
  unfolding rolled_back
  rolled_back-Returns db h (returns q) = returns q
  rolled_back-Returns db h (raises e) = raises h

  -- A transaction that raises leaves the tables as they were.
  pub transaction-Returns :
      {E F : Db → Type 0} (m : Action A) (db : Db)
      → F db
      → Returns E Q (m db)
      → Returns F Q (transaction m db)
  unfolding transaction
  transaction-Returns m db h r = rolled_back-Returns db h r

  handled-Returns :
      {E F : Db → Type 0} {r : Result A × Db} (h : Error → Action A)
      → Returns E Q r
      → ((e : Error) (db : Db) → E db → Returns F Q (h e db))
      → Returns F Q (handled r h)
  unfolding handled
  handled-Returns h (returns q) k = returns q
  handled-Returns h (raises {e = e} {db = db} x) k = k e db x

  pub catch-Returns :
      {E F : Db → Type 0} (m : Action A) (h : Error → Action A) (db : Db)
      → Returns E Q (m db)
      → ((e : Error) (db' : Db) → E db' → Returns F Q (h e db'))
      → Returns F Q (catch m h db)
  unfolding catch
  catch-Returns m h db r k = handled-Returns h r k

-- What holds however a call ends.
pub after_call : {A : Type 0} {P : Db → Type 0} {r : Result A × Db} → Returns P (λ _. P) r → P r.1
after_call (returns q) = q
after_call (raises e) = e

pub of_after : {A : Type 0} {P : Db → Type 0} (r : Result A × Db) → P r.1 → Returns P (λ _. P) r
of_after (ok a, db) h = returns h
of_after (err e, db) h = raises h
