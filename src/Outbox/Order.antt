-- ===== src/Outbox/Order.antt =====
-- With one goroutine, messages leave in the order in which they were written.
use ticketbus.Base.{
  sym, ℕ, zero, suc, ◌≤◌, ◌<◌, ◌≡◌, refl, true, List, [], ◌∷◌, ◌++◌, arith, length, take, select,
  ◌∙◌,
}
use mathlib.Core.List.{append_assoc, append-nil}
use mathlib.Core.Path.{subst}
use ticketbus.Outbox.{OutboxRow}
use ticketbus.Outbox.Worker.{
  insert_by_id, by_id, batch, waits, Job, publishing, marking, Run, Step, takes, publishes, refused,
  unsure, marks, unmarked, start, IsDone,
}
use ticketbus.Outbox.Liveness.{CleanSteps, here, next, succeeds}

-- One row after the other: what the broker has, what the goroutine holds and what waits.
abbrev held : List Job → List OutboxRow
held [] = []
held (publishing r ∷ js) = r ∷ held js
held (marking r ∷ js) = held js

abbrev InLine : List OutboxRow → List OutboxRow → List OutboxRow → List Job → Type 0
InLine all log jobs busy = (length busy ≤ 1) × (log ++ (held busy ++ jobs) ≡ all)

abbrev Line : List OutboxRow → Run → Type 0
Line all s = InLine all s.log s.jobs s.busy

abbrev pub IsAscending : List OutboxRow → Type 0
IsAscending [] = Unit
IsAscending (r ∷ []) = Unit
IsAscending (r ∷ x ∷ xs) = (r.id ≤ x.id) × IsAscending (x ∷ xs)

insert_by_id-IsAscending :
    (r : OutboxRow) (xs : List OutboxRow) → IsAscending xs → IsAscending (insert_by_id r xs)
unfolding insert_by_id
insert_by_id-IsAscending r [] h = tt
insert_by_id-IsAscending r (x ∷ []) h = ground arith
insert_by_id-IsAscending r (x ∷ y ∷ ys) h = ground (arith, insert_by_id-IsAscending r (y ∷ ys) h.1)

by_id-IsAscending : (xs : List OutboxRow) → IsAscending (by_id xs)
unfolding by_id
by_id-IsAscending [] = tt
by_id-IsAscending (x ∷ xs) = insert_by_id-IsAscending x (by_id xs) (by_id-IsAscending xs)

take-IsAscending : (n : ℕ) (xs : List OutboxRow) → IsAscending xs → IsAscending (take n xs)
take-IsAscending zero xs h = tt
take-IsAscending (suc n) [] h = tt
take-IsAscending (suc zero) (x ∷ []) h = tt
take-IsAscending (suc (suc n)) (x ∷ []) h = tt
take-IsAscending (suc zero) (x ∷ y ∷ ys) h = tt
take-IsAscending (suc (suc n)) (x ∷ y ∷ ys) h = (h.0, take-IsAscending (suc n) (y ∷ ys) h.1)

batch-IsAscending : (rows : List OutboxRow) → IsAscending (batch rows)
unfolding batch
batch-IsAscending rows =
    take-IsAscending 100 (by_id (select waits rows)) (by_id-IsAscending (select waits rows))

two_busy : (x : Job) (xs : List Job) (j : Job) (ys : List Job) → ¬ (length (x ∷ xs ++ j ∷ ys) ≤ 1)
two_busy x [] j ys h = ground arith
two_busy x (y ∷ xs) j ys h = ground arith

take_line :
    (all log js : List OutboxRow) (r : OutboxRow) (busy : List Job)
    → length busy < 1
    → InLine all log (r ∷ js) busy
    → InLine all log js (publishing r ∷ busy)
take_line all log js r [] free h = (omega arith, h.1)
take_line all log js r (j ∷ busy) free h = ground arith

tell_line :
    (all log jobs : List OutboxRow) (r : OutboxRow) (xs ys : List Job)
    → InLine all log jobs (xs ++ publishing r ∷ ys)
    → InLine all (log ++ r ∷ []) jobs (xs ++ marking r ∷ ys)
tell_line all log jobs r [] [] h = (omega arith, append_assoc log (r ∷ []) jobs ∙ h.1)
tell_line all log jobs r [] (y ∷ ys) h = ground arith
tell_line all log jobs r (x ∷ xs) ys h = absurd (two_busy x xs (publishing r) ys h.0)

mark_line :
    (all log jobs : List OutboxRow) (r : OutboxRow) (xs ys : List Job)
    → InLine all log jobs (xs ++ marking r ∷ ys)
    → InLine all log jobs (xs ++ ys)
mark_line all log jobs r [] [] h = (omega arith, h.1)
mark_line all log jobs r [] (y ∷ ys) h = ground arith
mark_line all log jobs r (x ∷ xs) ys h = absurd (two_busy x xs (marking r) ys h.0)

Line-Step :
    (all : List OutboxRow) {s t : Run} (one : Step 1 s t)
    → succeeds one ≡ true
    → Line all s
    → Line all t
Line-Step all (takes s r js e free) ok h =
    take_line all s.log js r s.busy free (subst (λ jobs. InLine all s.log jobs s.busy) e h)
Line-Step all (publishes s r xs ys e) ok h =
    tell_line all s.log s.jobs r xs ys (subst (InLine all s.log s.jobs) e h)
Line-Step all (refused s r xs ys e) ok h = ground arith
Line-Step all (unsure s r xs ys e) ok h = ground arith
Line-Step all (marks s r xs ys e) ok h =
    mark_line all s.log s.jobs r xs ys (subst (InLine all s.log s.jobs) e h)
Line-Step all (unmarked s r xs ys e) ok h = ground arith

Line-CleanSteps :
    (rows log : List OutboxRow) {s : Run}
    → CleanSteps 1 (start rows log) s
    → Line (log ++ batch rows) s
Line-CleanSteps rows log here = (omega arith, refl)
Line-CleanSteps rows log (next steps one ok) =
    Line-Step (log ++ batch rows) one ok (Line-CleanSteps rows log steps)

emptied :
    (all log : List OutboxRow) (jobs : List OutboxRow) (busy : List Job)
    → jobs ≡ []
    → busy ≡ []
    → InLine all log jobs busy
    → log ≡ all
emptied all log jobs busy drained idle h =
    sym (append-nil log)
    ∙ subst (λ b. log ++ (held b ++ []) ≡ all) idle
        (subst (λ js. log ++ (held busy ++ js) ≡ all) drained h.1)

-- With one goroutine, where nothing fails, a batch appends its rows to the broker's log, all of them,
-- as they are in the table, and in the order of their ids.
pub batch-ordered :
    (rows log : List OutboxRow) (s : Run)
    → CleanSteps 1 (start rows log) s
    → IsDone s
    → (s.log ≡ log ++ batch rows) × IsAscending (batch rows)
batch-ordered rows log s steps done = (
  emptied (log ++ batch rows) s.log s.jobs s.busy done.0 done.1 (Line-CleanSteps rows log steps),
  batch-IsAscending rows,
)
