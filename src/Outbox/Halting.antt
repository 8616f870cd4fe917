-- ===== src/Outbox/Halting.antt =====
-- A batch comes to its end, however the goroutines interleave and whatever fails.
use ticketbus.Base.{
  zero, suc, ℕ, ◌+◌, ◌*◌, ◌≤◌, ◌<◌, ◌≡◌, ◌⊎◌, refl, inl, inr, List, [], ◌∷◌, ◌++◌, arith, length,
  take, select,
}
use ticketbus.Outbox.{OutboxRow}
use ticketbus.Outbox.Worker.{
  new_worker, at_least_one, by_id, batch, waits, Job, publishing, marking, Run, Step, takes,
  publishes, refused, unsure, marks, unmarked, Steps, here, next, start, IsDone,
}

-- The moves that a goroutine has left with its row.
abbrev left_with : Job → ℕ
left_with (publishing _) = 2
left_with (marking _) = 1

abbrev left_in : List Job → ℕ
left_in [] = 0
left_in (j ∷ js) = left_with j + left_in js

left : Run → ℕ
left s = 3 * length s.jobs + left_in s.busy

left_in-append :
    (xs : List Job) (j : Job) (ys : List Job)
    → left_in (xs ++ j ∷ ys) ≡ left_with j + left_in (xs ++ ys)
left_in-append [] j ys = refl
left_in-append (x ∷ xs) j ys = omega (arith, left_in-append xs j ys)

left-Step : {n : ℕ} {s t : Run} → Step n s t → left t < left s
unfolding left
left-Step (takes s r js e free) = rw e (omega arith)
left-Step (publishes s r xs ys e) =
    rw e (omega (arith, left_in-append xs (publishing r) ys, left_in-append xs (marking r) ys))
left-Step (refused s r xs ys e) = rw e (omega (arith, left_in-append xs (publishing r) ys))
left-Step (unsure s r xs ys e) = rw e (omega (arith, left_in-append xs (publishing r) ys))
left-Step (marks s r xs ys e) = rw e (omega (arith, left_in-append xs (marking r) ys))
left-Step (unmarked s r xs ys e) = rw e (omega (arith, left_in-append xs (marking r) ys))

left-Steps : {n : ℕ} {s : Run} {k : ℕ} {t : Run} → Steps n s k t → k + left t ≤ left s
left-Steps here = omega arith
left-Steps (next steps one) = omega (arith, left-Steps steps, left-Step one)

length-take : {A : Type 0} (n : ℕ) (xs : List A) → length (take n xs) ≤ n
length-take zero xs = omega arith
length-take (suc n) [] = omega arith
length-take (suc n) (x ∷ xs) = omega (arith, length-take n xs)

List-cases : {A : Type 0} (xs : List A) → (xs ≡ []) ⊎ ((x : A) × (rest : List A) × (xs ≡ x ∷ rest))
List-cases [] = inl refl
List-cases (x ∷ rest) = inr (x, rest, refl)

busy_moves : (n : ℕ) (s : Run) (j : Job) (js : List Job) → s.busy ≡ j ∷ js → (t : Run) × Step n s t
busy_moves n s (publishing r) js e = (_, publishes s r [] js e)
busy_moves n s (marking r) js e = (_, marks s r [] js e)

-- While the batch is not done, some goroutine can move.
moves_on : (n : ℕ) (s : Run) → 1 ≤ n → IsDone s ⊎ ((t : Run) × Step n s t)
moves_on n s some_worker = elim (List-cases s.busy) [
  | inr (j, js, e) ↦ inr (busy_moves n s j js e)
  | inl idle ↦ elim (List-cases s.jobs) [
    | inl drained ↦ inl (drained, idle)
    | inr (r, js, e) ↦ inr (_, takes s r js e (rw idle (omega arith)))
  ]
]

at_least_one-bounds : (c : ℕ) → 1 ≤ at_least_one c
at_least_one-bounds c = ground arith

-- Whatever concurrency is configured, however the goroutines interleave and whatever fails: a batch
-- ends after at most 300 moves, and until it has ended some goroutine can move.
pub batch-halts :
    (concurrency poll_ms : ℕ) (rows log : List OutboxRow) (k : ℕ) (s : Run)
    → Steps (new_worker concurrency poll_ms).concurrency (start rows log) k s
    → (k ≤ 300) × (IsDone s ⊎ ((t : Run) × Step (new_worker concurrency poll_ms).concurrency s t))
unfolding new_worker batch left
batch-halts concurrency poll_ms rows log k s steps = (
  omega (arith, left-Steps steps, length-take 100 (by_id (select waits rows))),
  moves_on (at_least_one concurrency) s (at_least_one-bounds concurrency),
)
