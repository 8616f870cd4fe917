-- ===== src/Outbox/Delivery.antt =====
-- What a batch publishes and what it marks, in any interleaving of its goroutines.
use ticketbus.Base.{
  ℕ, ◌+◌, ◌≤◌, ◌≡◌, refl, List, ◌∷◌, ◌++◌, arith, ◌==◌, if◌then◌else◌, Bool-cases, inl, inr, ==→≡,
}
use ticketbus.Outbox.{OutboxRow}
use ticketbus.Outbox.Worker.{
  mark, publishing, marking, Run, Step, takes, publishes, refused, unsure, marks, unmarked, Steps,
  here, next, start,
}
use ticketbus.Outbox.Counting.{
  busy_counts, rows_of, open_of, jobs_of, marking_of, publishing_of, rows_of-append, rows_of-mark,
  open_of-mark_self, open_of-mark_other, rows_of-batch, UniqueIds, open_of_unique,
}

-- The rows that are yet to be worked on are undelivered.
abbrev pub Waiting : ℕ → Run → Type 0
Waiting id s = rows_of id s.jobs + jobs_of id s.busy ≤ open_of id s.rows

-- A goroutine marks only what is in the log, and so does the table.
abbrev pub Taken : ℕ → Run → Run → Type 0
Taken id o s =
    open_of id o.rows + rows_of id o.log + marking_of id s.busy
    ≤ open_of id s.rows + rows_of id s.log

-- A row goes to the log once.
abbrev pub Once : ℕ → Run → Run → Type 0
Once id o s =
    rows_of id s.log + publishing_of id s.busy + rows_of id s.jobs
    ≤ rows_of id o.log + rows_of id o.jobs

-- All three, for each id.
abbrev pub Fair : Run → Run → Type 0
Fair o s =
    (id : ℕ) → Waiting id s × Taken id o s × Once id o s × (rows_of id s.rows ≡ rows_of id o.rows)

pub open_of-mark :
    (id k : ℕ) (rows : List OutboxRow)
    → open_of id (mark k rows) ≡ (if k == id then 0 else open_of id rows)
open_of-mark id k rows = elim (Bool-cases (k == id)) [
  | inl same ↦ rw same (rw (==→≡ k id same) (open_of-mark_self id rows))
  | inr other ↦ rw other (open_of-mark_other id k rows other)
]

rows_of-head :
    (id : ℕ) (jobs : List OutboxRow) (r : OutboxRow) (js : List OutboxRow)
    → jobs ≡ r ∷ js
    → rows_of id jobs ≡ (if r.id == id then 1 else 0) + rows_of id js
rows_of-head id jobs r js e = rw e refl

module _ (o : Run) (unique : UniqueIds o.rows) where
  pub Fair-Step : {n : ℕ} {s t : Run} → Step n s t → Fair o s → Fair o t
  Fair-Step (takes s r js e free) h id = ground (arith, h id, rows_of-head id s.jobs r js e)
  Fair-Step (publishes s r xs ys e) h id = ground (
    arith,
    h id,
    busy_counts id s.busy xs (publishing r) ys e,
    busy_counts id (xs ++ marking r ∷ ys) xs (marking r) ys refl,
    rows_of-append id s.log r,
  )
  Fair-Step (refused s r xs ys e) h id =
      ground (arith, h id, busy_counts id s.busy xs (publishing r) ys e)
  Fair-Step (unsure s r xs ys e) h id =
      ground (arith, h id, busy_counts id s.busy xs (publishing r) ys e, rows_of-append id s.log r)
  Fair-Step (marks s r xs ys e) h id = ground (
    arith,
    h id,
    busy_counts id s.busy xs (marking r) ys e,
    open_of-mark id r.id s.rows,
    rows_of-mark id r.id s.rows,
    open_of_unique id s.rows,
  )
  Fair-Step (unmarked s r xs ys e) h id =
      ground (arith, h id, busy_counts id s.busy xs (marking r) ys e)

module _ (rows log : List OutboxRow) (unique : UniqueIds rows) where
  pub start-Fair : Fair (start rows log) (start rows log)
  start-Fair id = ground (arith, rows_of-batch id rows)

  pub Fair-Steps : {n k : ℕ} {s : Run} → Steps n (start rows log) k s → Fair (start rows log) s
  Fair-Steps here = start-Fair
  Fair-Steps (next steps one) = Fair-Step (start rows log) unique one (Fair-Steps steps)
