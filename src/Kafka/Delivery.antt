-- ===== src/Kafka/Delivery.antt =====
-- Which messages the handler of a consumer gets, in any interleaving of its goroutines.
use ticketbus.Base.{
  ℕ, ◌+◌, ◌*◌, ◌≤◌, ◌≡◌, refl, Bool, true, false, List, [], ◌∷◌, ◌++◌, arith, ◌==◌, if◌then◌else◌,
  length,
}
use ticketbus.Kafka.Consumer.{
  Message, Pool, Step, reads, read_fails, sends, gives_up, takes, returns, Steps, here, next, start,
  IsStopped,
}

-- The messages with an offset.
abbrev pub at_offset : {V : Type 0} → ℕ → List (Message V) → ℕ
at_offset k [] = 0
at_offset k (m ∷ ms) = (if m.offset == k then 1 else 0) + at_offset k ms

at_offset-append :
    {V : Type 0} (k : ℕ) (xs : List (Message V)) (m : Message V) (ys : List (Message V))
    → at_offset k (xs ++ m ∷ ys) ≡ (if m.offset == k then 1 else 0) + at_offset k (xs ++ ys)
at_offset-append k [] m ys = refl
at_offset-append k (x ∷ xs) m ys = omega (arith, at_offset-append k xs m ys)

at_offset-add :
    {V : Type 0} (k : ℕ) (xs : List (Message V)) (m : Message V)
    → at_offset k (xs ++ m ∷ []) ≡ at_offset k xs + (if m.offset == k then 1 else 0)
at_offset-add k [] m = omega arith
at_offset-add k (x ∷ xs) m = omega (arith, at_offset-add k xs m)

at_offset-at :
    {V : Type 0} {xs ys : List (Message V)} (k : ℕ) → xs ≡ ys → at_offset k xs ≡ at_offset k ys
at_offset-at k e = rw e refl

length-at : {V : Type 0} {xs ys : List (Message V)} → xs ≡ ys → length xs ≡ length ys
length-at e = rw e refl

none_at : {V : Type 0} (k : ℕ) (xs : List (Message V)) → length xs ≡ 0 → at_offset k xs ≡ 0
none_at k [] e = refl
none_at k (x ∷ xs) e = absurd (omega arith)

length-append :
    {V : Type 0} (xs : List (Message V)) (m : Message V) (ys : List (Message V))
    → length (xs ++ m ∷ ys) ≡ 1 + length (xs ++ ys)
length-append [] m ys = omega arith
length-append (x ∷ xs) m ys = omega (arith, length-append xs m ys)

length-add :
    {V : Type 0} (xs : List (Message V)) (m : Message V) → length (xs ++ m ∷ []) ≡ length xs + 1
length-add [] m = omega arith
length-add (x ∷ xs) m = omega (arith, length-add xs m)

module _ {V : Type 0} (n : ℕ) (ms : List (Message V)) where
  -- Every message is in one place, at most one is given up, when the channel closes, and the pool and
  -- the channel keep their sizes.
  record Kept (s : Pool V) : Type 0 where
    counted :
        (k : ℕ)
        → at_offset k s.handled
            + at_offset k s.busy
            + at_offset k s.jobs
            + at_offset k s.held
            + at_offset k s.dropped
            + at_offset k s.unread
          ≡ at_offset k ms
    noted : (k : ℕ) → at_offset k s.failed ≤ at_offset k s.handled
    few : length s.dropped + length s.held ≤ 1
    unshut : s.closed ≡ false → length s.dropped ≡ 0
    shut : s.closed ≡ true → length s.held ≡ 0
    working : length s.busy ≤ n
    waiting : length s.jobs ≤ n * 2

  start-Kept : Kept (start ms)
  start-Kept = record {
    counted = λ k. omega arith;
    noted = λ k. omega arith;
    few = omega arith;
    unshut = λ _. refl;
    shut = λ _. refl;
    working = omega arith;
    waiting = omega arith;
  }

  Kept-Step : {s t : Pool V} → Step n s t → Kept s → Kept t
  Kept-Step (reads s m us going free e) h = record {
    counted = λ k. ground (arith, h.counted k, at_offset-at k e, at_offset-at k free);
    noted = h.noted;
    few = ground (arith, h.unshut going);
    unshut = h.unshut;
    shut = λ c. ground (arith, going, c);
    working = h.working;
    waiting = h.waiting;
  }
  Kept-Step (read_fails s going free) h = record {
    counted = h.counted;
    noted = h.noted;
    few = h.few;
    unshut = λ c. ground (arith, c);
    shut = λ _. length-at free;
    working = h.working;
    waiting = h.waiting;
  }
  Kept-Step (sends s m e room) h = record {
    counted = λ k. ground (arith, h.counted k, at_offset-at k e, at_offset-add k s.jobs m);
    noted = h.noted;
    few = ground (arith, h.few);
    unshut = h.unshut;
    shut = λ _. refl;
    working = h.working;
    waiting = omega (arith, room, length-add s.jobs m);
  }
  Kept-Step (gives_up s m e) h = record {
    counted = λ k. ground (arith, h.counted k, at_offset-at k e);
    noted = h.noted;
    few = ground (arith, h.few, length-at e);
    unshut = λ c. ground (arith, c);
    shut = λ _. refl;
    working = h.working;
    waiting = h.waiting;
  }
  Kept-Step (takes s m js e free) h = record {
    counted = λ k. ground (arith, h.counted k, at_offset-at k e);
    noted = h.noted;
    few = h.few;
    unshut = h.unshut;
    shut = h.shut;
    working = omega (arith, free);
    waiting = omega (arith, h.waiting, length-at e);
  }
  Kept-Step (returns s m xs ys errors e) h = record {
    counted = λ k. ground (
      arith,
      h.counted k,
      at_offset-at k e,
      at_offset-append k xs m ys,
      at_offset-add k s.handled m,
    );
    noted = λ k. noted_one errors k;
    few = h.few;
    unshut = h.unshut;
    shut = h.shut;
    working = omega (arith, h.working, length-at e, length-append xs m ys);
    waiting = h.waiting;
  }
    where
      noted_one :
          (b : Bool) (k : ℕ)
          → at_offset k (if b then m ∷ s.failed else s.failed) ≤ at_offset k (s.handled ++ m ∷ [])
      noted_one true k = omega (arith, h.noted k, at_offset-add k s.handled m)
      noted_one false k = omega (arith, h.noted k, at_offset-add k s.handled m)

  Kept-Steps : {s : Pool V} → Steps n (start ms) s → Kept s
  Kept-Steps here = start-Kept
  Kept-Steps (next steps one) = Kept-Step one (Kept-Steps steps)

-- However the goroutines interleave and whatever the handlers return: the handler has been called on no
-- message more often than the reader had it, a failed one included, and runs on `n` messages at a time
-- at most. When `Consume` returns, each message that was read has been handled, one at most excepted,
-- whether or not the handler failed on it.
pub consume-Handled :
    {V : Type 0} (n : ℕ) (ms : List (Message V)) (s : Pool V)
    → Steps n (start ms) s
    → ((k : ℕ) → at_offset k s.busy + at_offset k s.handled + at_offset k s.unread ≤ at_offset k ms)
      × (length s.busy ≤ n)
      × (IsStopped s
          → (length s.dropped ≤ 1)
            × ((k : ℕ)
                → at_offset k s.handled + at_offset k s.dropped + at_offset k s.unread
                  ≡ at_offset k ms))
consume-Handled n ms s steps =
    let h = Kept-Steps n ms steps in
    (
      (λ k. ground (arith, h.counted k)),
      h.working,
      λ (closed, jobs, busy). (
        ground (arith, h.few),
        λ k. ground (
          arith,
          h.counted k,
          at_offset-at k jobs,
          at_offset-at k busy,
          none_at k s.held (h.shut closed),
        ),
      ),
    )
