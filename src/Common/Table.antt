-- ===== src/Common/Table.antt =====
-- A database table: rows by primary key. `put` writes the row with a key, and adds it if there is
-- none; a search sees the rows in the order of insertion.
use Prim.Native.Nat.{ℕ, ◌+◌}
use mathlib.Core.Path.{◌≡◌, refl}
use mathlib.Core.Bool.{Bool, true, false, ◌&&◌, ◌||◌, not}
use mathlib.Core.Option.{Option, none, some}
use mathlib.Core.List.{List, [], ◌∷◌}
use native.Mathlib.Omega.{arith}
use sinkronis_backend.Common.Tests.{◌==◌, if◌then◌else◌}
use sinkronis_backend.Common.Int.{ℤ, pos, ◌+ℤ◌, int_laws}

abbrev pub Table : Type 0 → Type 0
Table V = List (ℕ × V)

module _ {V : Type 0} where
  unfoldable pub find : ℕ → Table V → Option V
  find k [] = none
  find k ((j, v) ∷ t) = if j == k then some v else find k t

  unfoldable pub put : ℕ → V → Table V → Table V
  put k v [] = (k, v) ∷ []
  put k v ((j, w) ∷ t) = if j == k then (k, v) ∷ t else (j, w) ∷ put k v t

  -- `delete`
  unfoldable pub remove : ℕ → Table V → Table V
  remove k [] = []
  remove k ((j, v) ∷ t) = let rest = remove k t in if j == k then rest else (j, v) ∷ rest

  unfoldable pub scan : (V → Bool) → Table V → Table V → Option (ℕ × V)
  scan p whole [] = none
  scan p whole ((j, _) ∷ t) = elim (find j whole) [
    | none ↦ scan p whole t
    | some v ↦ elim (p v) [ true ↦ some (j, v) | false ↦ scan p whole t ]
  ]

  -- `findFirst` by a condition on the row: the keys in order, each with its row
  unfoldable pub find_where : (V → Bool) → Table V → Option (ℕ × V)
  unfolding scan find
  find_where p t = scan p t t

  -- Some row with another key satisfies the condition.
  unfoldable pub any_other : ℕ → (V → Bool) → Table V → Bool
  any_other k p [] = false
  any_other k p ((j, v) ∷ t) = (not (j == k) && p v) || any_other k p t

  -- `count` of the rows that satisfy a condition
  unfoldable pub count_where : (V → Bool) → Table V → ℕ
  count_where p [] = 0
  count_where p ((_, v) ∷ t) = (if p v then 1 else 0) + count_where p t

  unfoldable pub sum_of : (V → ℤ) → Table V → ℤ
  sum_of f [] = pos 0
  sum_of f ((_, v) ∷ t) = f v +ℤ sum_of f t

  pub find-put :
      (k j : ℕ) (v : V) (t : Table V) → find j (put k v t) ≡ (if k == j then some v else find j t)
  unfolding find put
  find-put k j v [] = refl
  find-put k j v ((i, w) ∷ t) = ground (arith, find-put k j v t)

  pub find-put_self : (k : ℕ) (v : V) (t : Table V) → find k (put k v t) ≡ some v
  find-put_self k v t = ground (arith, find-put k k v t)

  pub find-remove :
      (k j : ℕ) (t : Table V) → find j (remove k t) ≡ (if k == j then none else find j t)
  unfolding find remove
  find-remove k j [] = ground arith
  find-remove k j ((i, w) ∷ t) = ground (arith, find-remove k j t)

  pub put-put : (k : ℕ) (v w : V) (t : Table V) → put k v (put k w t) ≡ put k v t
  unfolding put
  put-put k v w [] = ground arith
  put-put k v w ((i, u) ∷ t) = ground (arith, put-put k v w t)

  scan-found :
      (p : V → Bool) (whole t : Table V) {i : ℕ} {v : V}
      → scan p whole t ≡ some (i, v)
      → (find i whole ≡ some v) × (p v ≡ true)
  unfolding scan
  scan-found p whole [] e = cc
  scan-found p whole ((j, w) ∷ t) {i} {v} e = ground (arith, scan-found p whole t {i = i} {v = v})

  pub find_where-found :
      (p : V → Bool) (t : Table V) {i : ℕ} {v : V}
      → find_where p t ≡ some (i, v)
      → (find i t ≡ some v) × (p v ≡ true)
  find_where-found p t e = scan-found p t t (unfold find_where in e)

  scan-put_new :
      (p : V → Bool) (k : ℕ) (v : V) (t rest : Table V)
      → find k t ≡ none
      → find k rest ≡ none
      → scan p t rest ≡ none
      → p v ≡ true
      → scan p (put k v t) (put k v rest) ≡ some (k, v)
  unfolding scan put find
  scan-put_new p k v t [] new fresh unmet met = ground (arith, find-put_self k v t)
  scan-put_new p k v t ((j, w) ∷ rest) new fresh unmet met =
      ground (arith, find-put k j v t, scan-put_new p k v t rest)

  -- A new row is found if no row was.
  pub find_where-put_new :
      (p : V → Bool) (k : ℕ) (v : V) (t : Table V)
      → find k t ≡ none
      → find_where p t ≡ none
      → p v ≡ true
      → find_where p (put k v t) ≡ some (k, v)
  unfolding find_where
  find_where-put_new p k v t new unmet met = scan-put_new p k v t t new new unmet met

  pub sum_of-put :
      (f : V → ℤ) (k : ℕ) (v old : V) (t : Table V)
      → find k t ≡ some old
      → sum_of f (put k v t) +ℤ f old ≡ sum_of f t +ℤ f v
  unfolding find put sum_of
  sum_of-put f k v old [] e = cc
  sum_of-put f k v old ((j, w) ∷ t) e = grind (int_laws, sum_of-put f k v old t)

  pub sum_of-put_new :
      (f : V → ℤ) (k : ℕ) (v : V) (t : Table V)
      → find k t ≡ none
      → sum_of f (put k v t) ≡ sum_of f t +ℤ f v
  unfolding find put sum_of
  sum_of-put_new f k v [] e = omega int_laws
  sum_of-put_new f k v ((j, w) ∷ t) e = grind (int_laws, sum_of-put_new f k v t)
