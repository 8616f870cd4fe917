-- ===== src/Table.antt =====
-- A PostgreSQL table whose rows have a primary key, in the order of insertion: the statements that
-- the repositories of the services send, and the laws that relate them. A primary key is unique, so
-- a statement with `WHERE id = k` meets one row at most.
use mathlib.Core.Option
use ticketbus.Base.{
  ℕ, ◌≡◌, refl, Option, none, some, List, [], ◌∷◌, ◌++◌, arith, ◌==◌, if◌then◌else◌,
}

module _ {R : Type 0} (key : R → ℕ) where
  -- `SELECT … WHERE id = k`
  unfoldable pub find : ℕ → List R → Option R
  find k [] = none
  find k (r ∷ rs) = if key r == k then some r else find k rs

  -- `UPDATE … SET … WHERE id = k`
  unfoldable pub update : ℕ → (R → R) → List R → List R
  update k f [] = []
  update k f (r ∷ rs) = if key r == k then f r ∷ rs else r ∷ update k f rs

  -- `DELETE … WHERE id = k`
  unfoldable pub remove : ℕ → List R → List R
  remove k [] = []
  remove k (r ∷ rs) = if key r == k then rs else r ∷ remove k rs

  pub find-append :
      (j : ℕ) (r : R) (rows : List R)
      → find j (rows ++ r ∷ [])
        ≡ elim (find j rows) [ none ↦ if key r == j then some r else none | some x ↦ some x ]
  unfolding find
  find-append j r [] = refl
  find-append j r (x ∷ rows) = ground (arith, find-append j r rows)

  pub find-key : (j : ℕ) (r : R) (rows : List R) → find j rows ≡ some r → key r ≡ j
  unfolding find
  find-key j r [] h = ground arith
  find-key j r (x ∷ rows) h = ground (arith, find-key j r rows)

  pub find-update :
      (f : R → R)
      → ((r : R) → key (f r) ≡ key r)
      → (k j : ℕ) (rows : List R)
      → find j (update k f rows) ≡ (if j == k then Option.map f (find j rows) else find j rows)
  unfolding find update
  find-update f same k j [] = ground arith
  find-update f same k j (r ∷ rows) = ground (arith, same r, find-update f same k j rows)
