-- ===== src/Payment/Settled.antt =====
-- What a transaction keeps for good: its final status, its terms, and its booking.
use ticketbus.Base.{
  ℕ, ◌≡◌, refl, Bool, true, false, Uuid, Option, none, some, inl, inr, List, [], ◌∷◌, ◌++◌, arith,
  ◌==◌, Option-cases, Bool-cases, ==→≡, String, ◌&&◌,
}
use ticketbus.Table.{find, update, find-update, find-append}
use ticketbus.Db.{World}
use ticketbus.Payment.Domain.{Tables, Transaction, PaymentStatus, is_active, status_eq, txn_key}
use ticketbus.Payment.Repo.{moved, txn_row}
use ticketbus.Payment.Calls.{Call, run}
use ticketbus.Payment.Laws.{Law, Touches}
use ticketbus.Payment.Laws.Handlers.{Law-run}

same_row :
    {o : Option Transaction} (x y : Transaction) → o ≡ some x → o ≡ some y → x.status ≡ y.status
same_row x y a b = cc

-- Some transaction `k` is there, and has the property.
abbrev pub Is : (Transaction → Bool) → Uuid → Tables → Type 0
Is p k t = (elim (find txn_key k t.transactions) [ none ↦ false | some x ↦ p x ]) ≡ true

abbrev pub ended : PaymentStatus → Transaction → Bool
ended s x = status_eq x.status s

module _ (p : Transaction → Bool) (k : Uuid) where
  Is-append :
      (x : Transaction) (t : Tables)
      → Is p k t
      → Is p k (record t { transactions = t.transactions ++ x ∷ [] })
  Is-append x t h = elim (Option-cases (find txn_key k t.transactions)) [
    | inl gone ↦ ground (arith, h)
    | inr (y, there) ↦ ground (arith, h, find-append txn_key k x t.transactions)
  ]

  Is-update :
      (f : Transaction → Transaction) (id : Uuid) (t : Tables)
      → ((x : Transaction) → (f x).id ≡ x.id)
      → ((x : Transaction) → find txn_key id t.transactions ≡ some x → p x ≡ true → p (f x) ≡ true)
      → Is p k t
      → Is p k (record t { transactions = update txn_key id f t.transactions })
  Is-update f id t same keep h = elim (Option-cases (find txn_key k t.transactions)) [
    | inl gone ↦ ground (arith, h)
    | inr (y, there) ↦ elim (Bool-cases (k == id)) [
      | inl here ↦ ground (
        arith,
        h,
        find-update txn_key f same id k t.transactions,
        keep y (rw (← (==→≡ k id here)) there),
      )
      | inr elsewhere ↦ ground (arith, h, find-update txn_key f same id k t.transactions)
    ]
  ]

-- A property that neither an update of a session or a refund status nor a transition of an active
-- transaction takes away.
record Fixed (p : Transaction → Bool) : Type 0 where
  touched :
      (f : Transaction → Transaction) (x : Transaction) → Touches f → p x ≡ true → p (f x) ≡ true
  moves_on :
      (to : PaymentStatus) (ref : String) (now : ℕ) (x : Transaction)
      → is_active x.status ≡ true
      → p x ≡ true
      → p (moved to ref now x) ≡ true

Is-Law : (p : Transaction → Bool) (k : Uuid) → Fixed p → Law (Is p k) (λ _ _. Is p k)
Is-Law p k fixed = record {
  creates = λ x now t _ _ h. Is-append p k (txn_row x now) t h;
  edits = λ f id t same h. Is-update p k f id t same.same_id (λ x _ e. fixed.touched f x same e) h;
  moves = λ to ref now id x t there live h.
      Is-update p k (moved to ref now) id t (λ _. refl)
        (λ y there' e. fixed.moves_on to ref now y (rw (← (same_row x y there there')) live) e) h;
  settles = λ to id key m t says h. h;
  drops = λ to id t h. h;
  refunds = λ r t _ _ h. h;
  voids = λ refs t h. h;
}

ended-Fixed : (s : PaymentStatus) → is_active s ≡ false → Fixed (ended s)
ended-Fixed s final = record {
  touched = λ f x same e. rw (same.same_status x) e;
  moves_on = λ to ref now x live e. ground arith;
}

-- Over any history of calls, whichever statements fail on the way, a transaction that is completed
-- stays completed, and one that is expired stays expired.
pub run-ended :
    (s : PaymentStatus) (k : Uuid) (cs : List Call) (w : World Tables)
    → is_active s ≡ false
    → Is (ended s) k w.tables
    → Is (ended s) k (run cs w).tables
run-ended s k cs w final h = Law-run (Is-Law (ended s) k (ended-Fixed s final)) cs w h

-- The booking, the user and the amount of a transaction.
abbrev pub agreed : Uuid → Uuid → ℕ → Transaction → Bool
agreed booking user amount x =
    x.booking_id == booking && x.user_id == user && x.amount_rupiah == amount

agreed-Fixed : (booking user : Uuid) (amount : ℕ) → Fixed (agreed booking user amount)
agreed-Fixed booking user amount = record {
  touched = λ f x same e. rw (same.same_booking x, same.same_user x, same.same_amount x) e;
  moves_on = λ to ref now x live e. e;
}

-- Over any history of calls, whichever statements fail on the way, a transaction is not removed and
-- keeps its booking, its user and its amount.
pub run-agreed :
    (booking user : Uuid) (amount : ℕ) (k : Uuid) (cs : List Call) (w : World Tables)
    → Is (agreed booking user amount) k w.tables
    → Is (agreed booking user amount) k (run cs w).tables
run-agreed booking user amount k cs w h =
    Law-run (Is-Law (agreed booking user amount) k (agreed-Fixed booking user amount)) cs w h
