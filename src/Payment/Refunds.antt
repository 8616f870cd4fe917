-- ===== src/Payment/Refunds.antt =====
-- application/event_handlers.go: who is refunded when an event is cancelled.
use ticketbus.Db.{calm, ok, World, Result, exec, pure}
use ticketbus.Base.{
  ==-self, ℕ, ◌≡◌, refl, Bool, true, false, ◌&&◌, ◌||◌, Uuid, some, inl, inr, List, [], ◌∷◌, ◌++◌,
  ⊤, arith, ◌==◌, select, Bool-cases, ap, ◌∙◌,
}
use ticketbus.Payment.Webhook
use ticketbus.Payment.Webhook.{
  request_late_payment_refund, refund_for, refund_completed, refund_each, handle_event_cancelled,
}
use ticketbus.Payment.Repo.{
  has_id, has_key, insert_newest, newest_first, create_refund, insert_refund, refund_violation,
  update_refund_status, update_txn, with_refund,
}
use ticketbus.Payment.Domain.{
  late_payment, Tables, Transaction, RefundRequest, RefundStatus, PaymentStatus, initiated, pending,
  completed, expired, status_eq, txn_key, IdempotencyKey, event_cancelled, key_eq, Error,
}
use ticketbus.Table.{find}
use ticketbus.Db.Ensures.{
  Ensures, Runs, Runs-write_unless, Ensures-any, Ensures-exec, Ensures-bind, Ensures-known,
}
use ticketbus.Payment.Repo
use ticketbus.Payment.Unique.{key_eq→≡}
use ticketbus.Payment.Laws.Steps.{Runs-update_txn}

-- A transaction `k` of the list is completed.
abbrev pub paid : Uuid → List Transaction → Bool
paid k [] = false
paid k (x ∷ xs) = (x.id == k && status_eq x.status completed) || paid k xs

-- There is a refund request for transaction `k`, for the reason that its event is cancelled.
abbrev pub Refunded : Uuid → Tables → Type 0
Refunded k t = has_key (event_cancelled k) t.refund_requests ≡ true

paid-insert_newest :
    (k : Uuid) (x : Transaction) (xs : List Transaction)
    → paid k (insert_newest x xs) ≡ paid k (x ∷ xs)
unfolding insert_newest
paid-insert_newest k x [] = refl
paid-insert_newest k x (y ∷ ys) = ground (arith, paid-insert_newest k x ys)

paid-newest_first : (k : Uuid) (xs : List Transaction) → paid k (newest_first xs) ≡ paid k xs
unfolding newest_first
paid-newest_first k [] = refl
paid-newest_first k (x ∷ xs) =
    ground (arith, paid-insert_newest k x (newest_first xs), paid-newest_first k xs)

paid-select :
    (k event : Uuid) (x : Transaction) (xs : List Transaction)
    → find txn_key k xs ≡ some x
    → (x.event_id == event) ≡ true
    → status_eq x.status completed ≡ true
    → paid k (select (λ (y : Transaction). y.event_id == event) xs) ≡ true
unfolding find
paid-select k event x [] there same done = ground arith
paid-select k event x (y ∷ ys) there same done = ground (arith, paid-select k event x ys)

has_key-append :
    (k : IdempotencyKey) (rs : List RefundRequest) (r : RefundRequest)
    → has_key k (rs ++ r ∷ []) ≡ (has_key k rs || key_eq r.idempotency_key k)
unfolding has_key
has_key-append k [] r = ground arith
has_key-append k (x ∷ rs) r = ground (arith, has_key-append k rs r)

module _ (k : Uuid) where
  -- What a call ensures: where it returns, transaction `k` is refunded.
  abbrev Refunds : {A : Type 0} → Result Error A × World Tables → Type 0
  Refunds = Ensures (λ _. Refunded k) (λ _. ⊤)

  Refunded-create_refund :
      (r : RefundRequest) (w : World Tables)
      → (has_key (event_cancelled k) w.tables.refund_requests
          || key_eq r.idempotency_key (event_cancelled k))
        ≡ true
      → Refunds (create_refund r w)
  unfolding create_refund insert_refund
  Refunded-create_refund r w h =
      Ensures-exec Error (λ _. Refunded k) (λ _. ⊤) (insert_refund r) w tt
        (elim (Bool-cases (has_key r.idempotency_key w.tables.refund_requests)) [
          | inl known ↦ rw (known, Runs) (already known)
          | inr fresh ↦
              rw (fresh, Runs)
                (Runs-write_unless (Refunded k) (refund_violation r w.tables) _
                  (λ _. has_key-append (event_cancelled k) w.tables.refund_requests r ∙ h))
        ])
    where
      same_key :
          key_eq r.idempotency_key (event_cancelled k) ≡ true
          → has_key r.idempotency_key w.tables.refund_requests
            ≡ has_key (event_cancelled k) w.tables.refund_requests
      same_key e =
          ap (λ j. has_key j w.tables.refund_requests)
            (key_eq→≡ r.idempotency_key (event_cancelled k) e)

      already : has_key r.idempotency_key w.tables.refund_requests ≡ true → Refunded k w.tables
      already known = ground (arith, h, known, same_key)

  Refunded-update_refund_status :
      (id : Uuid) (s : RefundStatus) (now : ℕ) (w : World Tables)
      → Refunded k w.tables
      → Refunds (update_refund_status id s now w)
  unfolding update_refund_status
  Refunded-update_refund_status id s now w h =
      Ensures-bind (λ _. Refunded k) (λ _. Refunded k) (λ _. ⊤)
        (exec (update_txn id (λ _. true) (with_refund s now))) (λ _. pure tt) w
        (Ensures-exec Error (λ _. Refunded k) (λ _. ⊤)
          (update_txn id (λ _. true) (with_refund s now)) w tt
          (Runs-update_txn (λ _. Refunded k) id (λ _. true) (with_refund s now) w.tables h
            (λ _ _ _. h)))
        (λ _ _ h'. h')

  Refunded-refund_completed :
      (now : ℕ) (id : Uuid) (x : Transaction) (s : PaymentStatus) (w : World Tables)
      → (has_key (event_cancelled k) w.tables.refund_requests
          || (x.id == k && status_eq s completed))
        ≡ true
      → Refunds (refund_completed now id x s w)
  unfolding refund_completed
  Refunded-refund_completed now id x completed w h =
      Ensures-bind (λ _. Refunded k) (λ _. Refunded k) (λ _. ⊤)
        (create_refund (refund_for x id "event_cancelled" (event_cancelled x.id)))
        (λ _. update_refund_status x.id RefundStatus.pending now) w
        (Refunded-create_refund (refund_for x id "event_cancelled" (event_cancelled x.id)) w
          (ground arith))
        (λ _ w' h'. Refunded-update_refund_status x.id RefundStatus.pending now w' h')
  Refunded-refund_completed now id x initiated w h = ground arith
  Refunded-refund_completed now id x pending w h = ground arith
  Refunded-refund_completed now id x expired w h = ground arith

  Refunded-refund_each :
      (now : ℕ) (draw : Uuid → Uuid) (xs : List Transaction) (w : World Tables)
      → (has_key (event_cancelled k) w.tables.refund_requests || paid k xs) ≡ true
      → Refunds (refund_each now draw xs w)
  unfolding refund_each
  Refunded-refund_each now draw [] w h = ground arith
  Refunded-refund_each now draw (x ∷ xs) w h =
      elim (Bool-cases (
        has_key (event_cancelled k) w.tables.refund_requests
        || (x.id == k && status_eq x.status completed))) [
          | inl first ↦
              Ensures-bind (λ _. Refunded k) (λ _. Refunded k) (λ _. ⊤)
                (refund_completed now (draw x.id) x x.status) (λ _. refund_each now draw xs) w
                (Refunded-refund_completed now (draw x.id) x x.status w first)
                (λ _ w' h'. Refunded-refund_each now draw xs w' (rw h' refl))
          | inr later ↦
              Ensures-bind (λ _ _. ⊤) (λ _. Refunded k) (λ _. ⊤)
                (refund_completed now (draw x.id) x x.status) (λ _. refund_each now draw xs) w
                (Ensures-any (refund_completed now (draw x.id) x x.status w))
                (λ _ w' _. Refunded-refund_each now draw xs w' (in_rest w' later))
        ]
    where
      in_rest :
          (w' : World Tables)
          → (has_key (event_cancelled k) w.tables.refund_requests
              || (x.id == k && status_eq x.status completed))
            ≡ false
          → (has_key (event_cancelled k) w'.tables.refund_requests || paid k xs) ≡ true
      in_rest w' later = ground (arith, h, later)

-- The transactions of an event, as a whole read of them returns them.
abbrev pub all_of : Uuid → Tables → List Transaction
all_of event t = newest_first (select (λ (x : Transaction). x.event_id == event) t.transactions)

-- Where the list of the event's transactions is read as a whole, and the handler of the cancelled event
-- returns: every transaction of the event that was completed has a refund request, whichever
-- statements fail.
pub handle_event_cancelled-Refunded :
    (now : ℕ) (draw : Uuid → Uuid) (event k : Uuid) (x : Transaction) (w : World Tables)
    → find txn_key k w.tables.transactions ≡ some x
    → x.event_id ≡ event
    → x.status ≡ completed
    → (Repo.list_by_event_id event w).0 ≡ ok (all_of event w.tables)
    → Ensures (λ _. Refunded k) (λ _. ⊤) (handle_event_cancelled now draw event w)
unfolding handle_event_cancelled
handle_event_cancelled-Refunded now draw event k x w there same done whole =
    Ensures-bind (λ xs _. paid k xs ≡ true) (λ _. Refunded k) (λ _. ⊤) (Repo.list_by_event_id event)
      (refund_each now draw) w
      (Ensures-known (λ xs. paid k xs ≡ true) (all_of event w.tables)
        (Repo.list_by_event_id event w) whole
        (paid-newest_first k _
          ∙ paid-select k event x w.tables.transactions there (ground (arith, same))
              (ground (arith, done))))
      (λ xs w' h. Refunded-refund_each k now draw xs w' (ground (arith, h)))

-- Where no statement fails, the transaction is stored and the drawn id is new, the refund of a late
-- payment returns, and afterwards there is a request with the key of that payment.
pub request_late_payment_refund_lem :
    (env : Webhook.Env) (x : Transaction) (t : Tables)
    → find txn_key x.id t.transactions ≡ some x
    → has_id env.refund_id t.refund_requests ≡ false
    → ((request_late_payment_refund env x (calm t)).0 ≡ ok tt)
      × (has_key
            (late_payment x.id)
            (request_late_payment_refund env x (calm t)).1.tables.refund_requests
          ≡ true)
unfolding request_late_payment_refund create_refund insert_refund refund_violation
    update_refund_status update_txn exec has_key find
request_late_payment_refund_lem env x t there new =
    elim (Bool-cases (has_key (late_payment x.id) t.refund_requests)) [
      | inl known ↦ rw (known, there) (refl, known)
      | inr fresh ↦ rw (fresh, new, there) (refl, rw there (added fresh))
    ]
  where
    r : RefundRequest
    r = refund_for x env.refund_id "late_payment" (late_payment x.id)

    added :
        has_key (late_payment x.id) t.refund_requests ≡ false
        → has_key (late_payment x.id) (t.refund_requests ++ r ∷ []) ≡ true
    added fresh =
        ground (arith, has_key-append (late_payment x.id) t.refund_requests r, fresh, ==-self x.id)
