-- ===== src/Kafka/Tests.antt =====
-- Two messages and one goroutine, and two brokers, on which the theorems are applied.
use ticketbus.Base.{ℕ, ◌+◌, ◌≤◌, ◌≡◌, refl, true, List, [], ◌∷◌, arith, length, some}
use ticketbus.Kafka.Consumer.{
  Message, Pool, reads, sends, gives_up, takes, returns, Steps, here, next, start, IsStopped,
}
use ticketbus.Kafka.Topics.{Cluster, Created}
use ticketbus.Kafka.Delivery.{at_offset, consume-Handled}

abbrev note : ℕ → Message ℕ
note k = record { topic = "notes"; key = ""; value = k; offset = k }

abbrev notes : List (Message ℕ)
notes = note 1 ∷ note 2 ∷ []

-- The handler fails on the first, and the context ends at the second.
abbrev one_noted : Pool ℕ
one_noted = record {
  unread = [];
  held = [];
  jobs = [];
  busy = [];
  handled = note 1 ∷ [];
  failed = note 1 ∷ [];
  dropped = note 2 ∷ [];
  closed = true;
}

one_noted_moves : Steps 1 (start notes) one_noted
one_noted_moves =
    next
      (next
        (next
          (next
            (next (next here (reads (start notes) (note 1) (note 2 ∷ []) refl refl refl))
              (sends _ (note 1) refl (omega arith)))
            (takes _ (note 1) [] refl (omega arith)))
          (reads _ (note 2) [] refl refl refl))
        (gives_up _ (note 2) refl))
      (returns _ (note 1) [] [] true refl)

consume-Handled_example :
    ((k : ℕ)
      → at_offset k one_noted.busy + at_offset k one_noted.handled + at_offset k one_noted.unread
        ≤ at_offset k notes)
    × (length one_noted.busy ≤ 1)
    × (IsStopped one_noted
        → (length one_noted.dropped ≤ 1)
          × ((k : ℕ)
              → at_offset k one_noted.handled
                  + at_offset k one_noted.dropped
                  + at_offset k one_noted.unread
                ≡ at_offset k notes))
consume-Handled_example = consume-Handled 1 notes one_noted one_noted_moves

-- Two brokers, of which three replicas are asked.
abbrev two_brokers : Cluster
two_brokers = record {
  dials = true;
  brokers = some 2;
  controller = true;
  dials_controller = true;
  create_topics = λ c. Created.already_exists;
}
