-- ===== src/Outbox/Liveness.antt =====
-- Where no publish and no update fails, the worker delivers every row, once.
use ticketbus.Base.{
  ℕ, suc, ◌+◌, ◌-◌, ◌*◌, ◌≤◌, ◌≡◌, refl, Bool, true, false, List, [], ◌∷◌, ◌++◌, arith, length,
}
use ticketbus.Outbox.{OutboxRow}
use ticketbus.Outbox.Worker.{
  Job, publishing, marking, Run, Step, takes, publishes, refused, unsure, marks, unmarked, start,
  IsDone,
}
use ticketbus.Outbox.Counting.{
  undelivered, undelivered-mark, rows_of, open_of, marking_of, busy_counts, rows_of-append,
  length-batch, UniqueIds, open_of_unique, open_of-rows_of,
}
use ticketbus.Outbox.Delivery.{Fair, Fair-Step, start-Fair, open_of-mark}

abbrev pub succeeds : {n : ℕ} {s t : Run} → Step n s t → Bool
succeeds (takes s r js e free) = true
succeeds (publishes s r xs ys e) = true
succeeds (refused s r xs ys e) = false
succeeds (unsure s r xs ys e) = false
succeeds (marks s r xs ys e) = true
succeeds (unmarked s r xs ys e) = false

-- The moves of a batch in which nothing fails.
pub data CleanSteps (n : ℕ) (s : Run) : Run → Type 0 where
  here : CleanSteps n s s
  next :
      {t u : Run} → CleanSteps n s t → (one : Step n t u) → succeeds one ≡ true → CleanSteps n s u

-- Some polls, one after the other, each with a whole batch in which nothing fails.
pub data Polls (n : ℕ) (rows log : List OutboxRow)
    : ℕ → List OutboxRow → List OutboxRow → Type 0 where
  none : Polls n rows log 0 rows log
  poll :
      {k : ℕ} {rows' log' : List OutboxRow} {s : Run}
      → Polls n rows log k rows' log'
      → CleanSteps n (start rows' log') s
      → IsDone s
      → Polls n rows log (k + 1) s.rows s.log

length-remove :
    (xs : List Job) (j : Job) (ys : List Job) → length (xs ++ j ∷ ys) ≡ suc (length (xs ++ ys))
length-remove [] j ys = refl
length-remove (x ∷ xs) j ys = omega (arith, length-remove xs j ys)

-- The rows that the batch has left, and the message of each row that is no longer open, once.
abbrev Paced : Run → Run → Type 0
Paced o s = undelivered s.rows + length o.jobs ≤ undelivered o.rows + length s.jobs + length s.busy

abbrev Exact : ℕ → Run → Run → Type 0
Exact id o s =
    rows_of id s.log + open_of id s.rows
    ≡ rows_of id o.log + open_of id o.rows + marking_of id s.busy

busy_length :
    (busy xs : List Job) (j : Job) (ys : List Job)
    → busy ≡ xs ++ j ∷ ys
    → length busy ≡ suc (length (xs ++ ys))
busy_length busy xs j ys e = rw e (length-remove xs j ys)

length-head :
    (jobs : List OutboxRow) (r : OutboxRow) (js : List OutboxRow)
    → jobs ≡ r ∷ js
    → length jobs ≡ suc (length js)
length-head jobs r js e = rw e refl

module _ (o : Run) (unique : UniqueIds o.rows) where
  Paced-Step :
      {n : ℕ} {s t : Run} (one : Step n s t)
      → succeeds one ≡ true
      → Fair o s
      → Paced o s
      → Paced o t
  Paced-Step (takes s r js e free) ok h paced = omega (arith, length-head s.jobs r js e)
  Paced-Step (publishes s r xs ys e) ok h paced =
      omega (arith, busy_length s.busy xs (publishing r) ys e, length-remove xs (marking r) ys)
  Paced-Step (refused s r xs ys e) ok h paced = ground arith
  Paced-Step (unsure s r xs ys e) ok h paced = ground arith
  Paced-Step (marks s r xs ys e) ok h paced = ground (
    arith,
    h r.id,
    busy_length s.busy xs (marking r) ys e,
    busy_counts r.id s.busy xs (marking r) ys e,
    undelivered-mark r.id s.rows,
  )
  Paced-Step (unmarked s r xs ys e) ok h paced = ground arith

  Exact-Step :
      {n : ℕ} {s t : Run} (one : Step n s t)
      → succeeds one ≡ true
      → Fair o s
      → (id : ℕ) → Exact id o s
      → Exact id o t
  Exact-Step (takes s r js e free) ok h id exact = ground arith
  Exact-Step (publishes s r xs ys e) ok h id exact = ground (
    arith,
    busy_counts id s.busy xs (publishing r) ys e,
    busy_counts id (xs ++ marking r ∷ ys) xs (marking r) ys refl,
    rows_of-append id s.log r,
  )
  Exact-Step (refused s r xs ys e) ok h id exact = ground arith
  Exact-Step (unsure s r xs ys e) ok h id exact = ground arith
  Exact-Step (marks s r xs ys e) ok h id exact = ground (
    arith,
    h id,
    unique id,
    busy_counts id s.busy xs (marking r) ys e,
    open_of-mark id r.id s.rows,
    open_of_unique id o.rows unique,
    open_at_most id s.rows (h id).3,
  )
    where
      open_at_most :
          (id : ℕ) (rows : List OutboxRow)
          → rows_of id rows ≡ rows_of id o.rows
          → open_of id rows ≤ 1
      open_at_most id rows same = omega (arith, open_of-rows_of id rows, unique id)
  Exact-Step (unmarked s r xs ys e) ok h id exact = ground arith

abbrev Clean : Run → Run → Type 0
Clean o s = Fair o s × Paced o s × ((id : ℕ) → Exact id o s)

Clean-Step :
    (o : Run)
    → UniqueIds o.rows
    → {n : ℕ} {s t : Run} (one : Step n s t) → succeeds one ≡ true
    → Clean o s
    → Clean o t
Clean-Step o unique one ok h = (
  Fair-Step o unique one h.0,
  Paced-Step o unique one ok h.0 h.1,
  λ id. Exact-Step o unique one ok h.0 id (h.2 id),
)

module _ (rows log : List OutboxRow) (unique : UniqueIds rows) where
  CleanSteps-Clean : {n : ℕ} {s : Run} → CleanSteps n (start rows log) s → Clean (start rows log) s
  CleanSteps-Clean here = (start-Fair rows log unique, omega arith, λ id. omega arith)
  CleanSteps-Clean (next steps one ok) =
      Clean-Step (start rows log) unique one ok (CleanSteps-Clean steps)

-- What a poll in which nothing fails leaves: at most what is beyond its batch, and the rows that it
-- delivered stand in the log once more.
abbrev Polled : ℕ → List OutboxRow → List OutboxRow → List OutboxRow → List OutboxRow → Type 0
Polled k rows log rows' log' =
    (undelivered rows' ≤ undelivered rows - 100 * k)
    × UniqueIds rows'
    × ((id : ℕ) → rows_of id log' + open_of id rows' ≡ rows_of id log + open_of id rows)

poll-Polled :
    (n : ℕ) (rows log : List OutboxRow) (s : Run)
    → UniqueIds rows
    → CleanSteps n (start rows log) s
    → IsDone s
    → Polled 1 rows log s.rows s.log
poll-Polled n rows log s unique steps done = facts (CleanSteps-Clean rows log unique steps)
  where
    drained : length s.jobs ≡ 0
    drained = rw done.0 refl

    idle : length s.busy ≡ 0
    idle = rw done.1 refl

    marked : (id : ℕ) → marking_of id s.busy ≡ 0
    marked id = rw done.1 refl

    facts : Clean (start rows log) s → Polled 1 rows log s.rows s.log
    facts h = (
      ground (arith, h.1, length-batch rows, drained, idle),
      λ id. omega (arith, (h.0 id).3, unique id),
      λ id. omega (arith, h.2 id, marked id),
    )

Polled-then :
    (k : ℕ) (rows log rows' log' rows'' log'' : List OutboxRow)
    → Polled k rows log rows' log'
    → Polled 1 rows' log' rows'' log''
    → Polled (k + 1) rows log rows'' log''
Polled-then k rows log rows' log' rows'' log'' h h' =
    (omega (arith, h.0, h'.0), h'.1, λ id. omega (arith, h.2 id, h'.2 id))

Polls-Polled :
    (n : ℕ) (rows log : List OutboxRow)
    → UniqueIds rows
    → {k : ℕ} {rows' log' : List OutboxRow} → Polls n rows log k rows' log'
    → Polled k rows log rows' log'
Polls-Polled n rows log unique none = (omega arith, unique, λ id. refl)
Polls-Polled n rows log unique (poll {k} {rows'} {log'} {s} polls steps done) =
    then_one (Polls-Polled n rows log unique polls)
  where
    then_one : Polled k rows log rows' log' → Polled (k + 1) rows log s.rows s.log
    then_one h =
        Polled-then k rows log rows' log' s.rows s.log h (poll-Polled n rows' log' s h.1 steps done)

open_of-undelivered : (id : ℕ) (rows : List OutboxRow) → open_of id rows ≤ undelivered rows
open_of-undelivered id [] = omega arith
open_of-undelivered id (r ∷ rs) = ground (arith, open_of-undelivered id rs)

-- Where nothing fails and no row is added, in any interleaving of the goroutines: after one poll for
-- each hundred of undelivered rows, every row is delivered, and each of them has gone to the broker
-- once.
pub Polls-delivered :
    (n k : ℕ) (rows log rows' log' : List OutboxRow)
    → UniqueIds rows
    → undelivered rows ≤ 100 * k
    → Polls n rows log k rows' log'
    → (undelivered rows' ≡ 0) × ((id : ℕ) → rows_of id log' ≡ rows_of id log + open_of id rows)
Polls-delivered n k rows log rows' log' unique enough polls =
    all_done (Polls-Polled n rows log unique polls)
  where
    all_done :
        Polled k rows log rows' log'
        → (undelivered rows' ≡ 0) × ((id : ℕ) → rows_of id log' ≡ rows_of id log + open_of id rows)
    all_done h =
        (omega (arith, h.0), λ id. omega (arith, h.0, h.2 id, open_of-undelivered id rows'))
