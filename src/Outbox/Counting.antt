-- ===== src/Outbox/Counting.antt =====
-- How often a row stands in a list, and what the operations of a batch do to the counts.
use ticketbus.Base.{
  ℕ, zero, suc, ◌+◌, ◌≤◌, ◌≡◌, refl, false, List, [], ◌∷◌, ◌++◌, arith, ltb, ◌==◌, if◌then◌else◌,
  length, take, select, Bool-cases, inl, inr,
}
use ticketbus.Outbox.{OutboxRow}
use ticketbus.Outbox.Worker.{mark, insert_by_id, by_id, batch, waits, Job, publishing, marking}

-- The rows with an id, those of them that are not delivered, and all that are not delivered.
abbrev pub rows_of : ℕ → List OutboxRow → ℕ
rows_of id [] = 0
rows_of id (r ∷ rs) = (if r.id == id then 1 else 0) + rows_of id rs

abbrev pub open_of : ℕ → List OutboxRow → ℕ
open_of id rs = rows_of id (select waits rs)

abbrev pub undelivered : List OutboxRow → ℕ
undelivered rs = length (select waits rs)

abbrev pub row_of : Job → OutboxRow
row_of (publishing r) = r
row_of (marking r) = r

-- The jobs with an id, and those whose row is in the log.
abbrev pub jobs_of : ℕ → List Job → ℕ
jobs_of id [] = 0
jobs_of id (j ∷ js) = (if (row_of j).id == id then 1 else 0) + jobs_of id js

-- The jobs with an id whose message the broker has taken, and the others.
abbrev pub marking_of : ℕ → List Job → ℕ
marking_of id [] = 0
marking_of id (publishing _ ∷ js) = marking_of id js
marking_of id (marking r ∷ js) = (if r.id == id then 1 else 0) + marking_of id js

abbrev pub publishing_of : ℕ → List Job → ℕ
publishing_of id [] = 0
publishing_of id (marking _ ∷ js) = publishing_of id js
publishing_of id (publishing r ∷ js) = (if r.id == id then 1 else 0) + publishing_of id js

pub marking_of-append :
    (id : ℕ) (xs : List Job) (j : Job) (ys : List Job)
    → marking_of id (xs ++ j ∷ ys) ≡ marking_of id (j ∷ []) + marking_of id (xs ++ ys)
marking_of-append id [] (publishing r) ys = omega arith
marking_of-append id [] (marking r) ys = omega arith
marking_of-append id (publishing x ∷ xs) j ys = marking_of-append id xs j ys
marking_of-append id (marking x ∷ xs) j ys = omega (arith, marking_of-append id xs j ys)

pub publishing_of-append :
    (id : ℕ) (xs : List Job) (j : Job) (ys : List Job)
    → publishing_of id (xs ++ j ∷ ys) ≡ publishing_of id (j ∷ []) + publishing_of id (xs ++ ys)
publishing_of-append id [] (publishing r) ys = omega arith
publishing_of-append id [] (marking r) ys = omega arith
publishing_of-append id (publishing x ∷ xs) j ys = omega (arith, publishing_of-append id xs j ys)
publishing_of-append id (marking x ∷ xs) j ys = publishing_of-append id xs j ys

pub rows_of-append :
    (id : ℕ) (xs : List OutboxRow) (r : OutboxRow)
    → rows_of id (xs ++ r ∷ []) ≡ rows_of id xs + (if r.id == id then 1 else 0)
rows_of-append id [] r = omega arith
rows_of-append id (x ∷ xs) r = omega (arith, rows_of-append id xs r)

pub jobs_of-append :
    (id : ℕ) (xs : List Job) (j : Job) (ys : List Job)
    → jobs_of id (xs ++ j ∷ ys) ≡ (if (row_of j).id == id then 1 else 0) + jobs_of id (xs ++ ys)
jobs_of-append id [] j ys = refl
jobs_of-append id (x ∷ xs) j ys = omega (arith, jobs_of-append id xs j ys)

-- The counts of a goroutine's job, apart from the others'.
pub busy_counts :
    (id : ℕ) (busy xs : List Job) (j : Job) (ys : List Job)
    → busy ≡ xs ++ j ∷ ys
    → (jobs_of id busy ≡ (if (row_of j).id == id then 1 else 0) + jobs_of id (xs ++ ys))
      × (marking_of id busy ≡ marking_of id (j ∷ []) + marking_of id (xs ++ ys))
      × (publishing_of id busy ≡ publishing_of id (j ∷ []) + publishing_of id (xs ++ ys))
busy_counts id busy xs j ys e =
    rw e (jobs_of-append id xs j ys, marking_of-append id xs j ys, publishing_of-append id xs j ys)

pub rows_of-mark : (id k : ℕ) (rs : List OutboxRow) → rows_of id (mark k rs) ≡ rows_of id rs
unfolding mark
rows_of-mark id k [] = refl
rows_of-mark id k (r ∷ rs) = elim (Bool-cases (r.id == k)) [
  | inl same ↦ rw same (omega (arith, rows_of-mark id k rs))
  | inr other ↦ rw other (omega (arith, rows_of-mark id k rs))
]

pub open_of-mark_self : (k : ℕ) (rs : List OutboxRow) → open_of k (mark k rs) ≡ 0
unfolding mark
open_of-mark_self k [] = refl
open_of-mark_self k (r ∷ rs) = ground (arith, open_of-mark_self k rs)

pub open_of-mark_other :
    (id k : ℕ) (rs : List OutboxRow) → (k == id) ≡ false → open_of id (mark k rs) ≡ open_of id rs
unfolding mark
open_of-mark_other id k [] other = refl
open_of-mark_other id k (r ∷ rs) other = ground (arith, open_of-mark_other id k rs)

pub undelivered-mark :
    (k : ℕ) (rs : List OutboxRow) → undelivered (mark k rs) + open_of k rs ≡ undelivered rs
unfolding mark
undelivered-mark k [] = refl
undelivered-mark k (r ∷ rs) = ground (arith, undelivered-mark k rs)

pub open_of-rows_of : (id : ℕ) (rs : List OutboxRow) → open_of id rs ≤ rows_of id rs
open_of-rows_of id [] = omega arith
open_of-rows_of id (r ∷ rs) = ground (arith, open_of-rows_of id rs)

rows_of-insert_by_id :
    (id : ℕ) (r : OutboxRow) (xs : List OutboxRow)
    → rows_of id (insert_by_id r xs) ≡ (if r.id == id then 1 else 0) + rows_of id xs
unfolding insert_by_id
rows_of-insert_by_id id r [] = refl
rows_of-insert_by_id id r (x ∷ xs) = elim (Bool-cases (ltb x.id r.id)) [
  | inl before ↦ rw before (omega (arith, rows_of-insert_by_id id r xs))
  | inr after ↦ rw after refl
]

rows_of-by_id : (id : ℕ) (xs : List OutboxRow) → rows_of id (by_id xs) ≡ rows_of id xs
unfolding by_id
rows_of-by_id id [] = refl
rows_of-by_id id (x ∷ xs) = omega (arith, rows_of-insert_by_id id x (by_id xs), rows_of-by_id id xs)

length-insert_by_id :
    (r : OutboxRow) (xs : List OutboxRow) → length (insert_by_id r xs) ≡ suc (length xs)
unfolding insert_by_id
length-insert_by_id r [] = refl
length-insert_by_id r (x ∷ xs) = ground (arith, length-insert_by_id r xs)

length-by_id : (xs : List OutboxRow) → length (by_id xs) ≡ length xs
unfolding by_id
length-by_id [] = refl
length-by_id (x ∷ xs) = omega (arith, length-insert_by_id x (by_id xs), length-by_id xs)

rows_of-take : (id n : ℕ) (xs : List OutboxRow) → rows_of id (take n xs) ≤ rows_of id xs
rows_of-take id zero xs = omega arith
rows_of-take id (suc n) [] = omega arith
rows_of-take id (suc n) (x ∷ xs) = omega (arith, rows_of-take id n xs)

length-take_min :
    {A : Type 0} (n : ℕ) (xs : List A)
    → length (take n xs) ≡ (if ltb n (length xs) then n else length xs)
length-take_min zero [] = refl
length-take_min zero (x ∷ xs) = ground arith
length-take_min (suc n) [] = ground arith
length-take_min (suc n) (x ∷ xs) = ground (arith, length-take_min n xs)

-- A batch has each undelivered row at most as often as the table, and as many rows as the limit lets.
pub rows_of-batch : (id : ℕ) (rows : List OutboxRow) → rows_of id (batch rows) ≤ open_of id rows
unfolding batch
rows_of-batch id rows =
    omega
      (arith, rows_of-take id 100 (by_id (select waits rows)), rows_of-by_id id (select waits rows))

pub length-batch :
    (rows : List OutboxRow)
    → length (batch rows) ≡ (if ltb 100 (undelivered rows) then 100 else undelivered rows)
unfolding batch
length-batch rows =
    rw (← (length-by_id (select waits rows))) (length-take_min 100 (by_id (select waits rows)))

-- No two rows of a table have one id: the primary key.
abbrev pub UniqueIds : List OutboxRow → Type 0
UniqueIds rows = (id : ℕ) → rows_of id rows ≤ 1

pub open_of_unique : (id : ℕ) (rows : List OutboxRow) → UniqueIds rows → open_of id rows ≤ 1
open_of_unique id rows unique = omega (arith, open_of-rows_of id rows, unique id)
