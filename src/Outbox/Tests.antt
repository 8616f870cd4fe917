-- ===== src/Outbox/Tests.antt =====
-- Two rows and two goroutines, on which the theorems about the outbox worker are applied.
use ticketbus.Base.{ℕ, ◌+◌, ◌≤◌, ◌≡◌, ◌⊎◌, refl, true, false, List, [], ◌∷◌, ◌++◌, arith}
use ticketbus.Dto.{event_cancelled}
use ticketbus.Outbox.{OutboxRow, of_row}
use ticketbus.Outbox.Worker.{
  new_worker, insert_by_id, by_id, batch, mark, publishing, marking, Run, Step, takes, publishes,
  refused, marks, Steps, here, next, start, IsDone,
}
use ticketbus.Outbox.Counting.{undelivered, rows_of, open_of, UniqueIds}
use ticketbus.Outbox.Halting.{batch-halts}
use ticketbus.Outbox.Liveness.{CleanSteps, Polls, poll, Polls-delivered}
use ticketbus.Outbox.Order.{batch-ordered, IsAscending}

abbrev row : ℕ → OutboxRow
row id = record {
  id = id;
  key = of_row id;
  payload = event_cancelled (record { event_id = id; at = 0 });
  delivered = false;
}

abbrev two : List OutboxRow
two = row 1 ∷ row 2 ∷ []

abbrev both_taken : Run
both_taken = record {
  rows = two;
  log = [];
  jobs = [];
  busy = publishing (row 2) ∷ publishing (row 1) ∷ [];
}

-- Both goroutines take a row, the second publishes first, and the first is refused.
abbrev one_refused : Run
one_refused = record { rows = two; log = row 2 ∷ []; jobs = []; busy = marking (row 2) ∷ [] }

refused_moves : Steps 2 (start two []) 4 one_refused
unfolding batch by_id insert_by_id
refused_moves =
    next
      (next
        (next (next here (takes (start two []) (row 1) (row 2 ∷ []) refl (omega arith)))
          (takes _ (row 2) [] refl (omega arith)))
        (publishes _ (row 2) [] (publishing (row 1) ∷ []) refl))
      (refused _ (row 1) (marking (row 2) ∷ []) [] refl)

two-UniqueIds : UniqueIds two
two-UniqueIds id = ground arith

batch-halts_example :
    (4 ≤ 300)
    × (IsDone one_refused ⊎ ((t : Run) × Step (new_worker 2 500).concurrency one_refused t))
unfolding new_worker
batch-halts_example = batch-halts 2 500 two [] 4 one_refused refused_moves

abbrev all_delivered : List OutboxRow
all_delivered = record (row 1) { delivered = true } ∷ record (row 2) { delivered = true } ∷ []

abbrev swapped : Run
swapped = record { rows = all_delivered; log = row 2 ∷ row 1 ∷ []; jobs = []; busy = [] }

clean_moves : CleanSteps 2 (start two []) swapped
unfolding batch by_id insert_by_id mark
clean_moves =
    CleanSteps.next
      (CleanSteps.next
        (CleanSteps.next
          (CleanSteps.next
            (CleanSteps.next
              (CleanSteps.next CleanSteps.here
                (takes (start two []) (row 1) (row 2 ∷ []) refl (omega arith)) refl)
              (takes _ (row 2) [] refl (omega arith)) refl)
            (publishes _ (row 2) [] (publishing (row 1) ∷ []) refl) refl)
          (publishes _ (row 1) (marking (row 2) ∷ []) [] refl) refl)
        (marks _ (row 2) [] (marking (row 1) ∷ []) refl) refl)
      (marks _ (row 1) [] [] refl) refl

Polls-delivered_example :
    (undelivered all_delivered ≡ 0)
    × ((id : ℕ) → rows_of id (row 2 ∷ row 1 ∷ []) ≡ rows_of id [] + open_of id two)
Polls-delivered_example =
    Polls-delivered 2 1 two [] all_delivered (row 2 ∷ row 1 ∷ []) two-UniqueIds (omega arith)
      (poll Polls.none clean_moves (refl, refl))

abbrev in_order : Run
in_order = record { rows = all_delivered; log = row 1 ∷ row 2 ∷ []; jobs = []; busy = [] }

ordered_moves : CleanSteps 1 (start two []) in_order
unfolding batch by_id insert_by_id mark
ordered_moves =
    CleanSteps.next
      (CleanSteps.next
        (CleanSteps.next
          (CleanSteps.next
            (CleanSteps.next
              (CleanSteps.next CleanSteps.here
                (takes (start two []) (row 1) (row 2 ∷ []) refl (omega arith)) refl)
              (publishes _ (row 1) [] [] refl) refl)
            (marks _ (row 1) [] [] refl) refl)
          (takes _ (row 2) [] refl (omega arith)) refl)
        (publishes _ (row 2) [] [] refl) refl)
      (marks _ (row 2) [] [] refl) refl

batch-ordered_example : (in_order.log ≡ [] ++ batch two) × IsAscending (batch two)
batch-ordered_example = batch-ordered two [] in_order ordered_moves (refl, refl)
