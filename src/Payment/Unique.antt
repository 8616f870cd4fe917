-- ===== src/Payment/Unique.antt =====
-- One transaction for each booking, and one refund request for each reason to refund.
use ticketbus.Base.{
  ℕ, ◌+◌, ◌≤◌, ◌≡◌, refl, sym, ◌∙◌, Bool, true, false, not, ◌&&◌, Uuid, none, List, [], ◌∷◌, ◌++◌,
  arith, ◌==◌, if◌then◌else◌, is_some, All, Bool-cases, inl, inr, ==→≡, ==-self,
}
use ticketbus.Table.{find, update}
use ticketbus.Db.{World}
use ticketbus.Payment.Domain.{
  Tables, Transaction, RefundRequest, IdempotencyKey, event_cancelled, late_payment, key_eq,
  key_txn, txn_key, booking_key,
}
use ticketbus.Payment.Repo.{moved, txn_row, txn_violation, has_key}
use ticketbus.Payment.Calls.{Call, run}
use ticketbus.Payment.Laws.{Law}
use ticketbus.Payment.Laws.Handlers.{Law-run}

abbrev pub transactions_of : Uuid → List Transaction → ℕ
transactions_of b [] = 0
transactions_of b (x ∷ xs) = (if x.booking_id == b then 1 else 0) + transactions_of b xs

abbrev pub is_late : IdempotencyKey → Bool
is_late (late_payment _) = true
is_late (event_cancelled _) = false

abbrev pub same_bool : Bool → Bool → Bool
same_bool true b = b
same_bool false b = not b

-- The request is one for transaction `k`, for its late payment or else for its cancelled event.
abbrev pub refunds : Uuid → Bool → RefundRequest → Bool
refunds k late r = r.transaction_id == k && same_bool (is_late r.idempotency_key) late

abbrev pub refunds_of : Uuid → Bool → List RefundRequest → ℕ
refunds_of k late [] = 0
refunds_of k late (r ∷ rs) = (if refunds k late r then 1 else 0) + refunds_of k late rs

-- The key of a request names the transaction of the request.
abbrev pub NamesOwn : RefundRequest → Type 0
NamesOwn r = key_txn r.idempotency_key ≡ r.transaction_id

transactions_of-append :
    (b : Uuid) (xs : List Transaction) (x : Transaction)
    → transactions_of b (xs ++ x ∷ []) ≡ transactions_of b xs + (if x.booking_id == b then 1 else 0)
transactions_of-append b [] x = omega arith
transactions_of-append b (y ∷ xs) x = omega (arith, transactions_of-append b xs x)

transactions_of-update :
    (b id : Uuid) (f : Transaction → Transaction) (xs : List Transaction)
    → ((x : Transaction) → (f x).booking_id ≡ x.booking_id)
    → transactions_of b (update txn_key id f xs) ≡ transactions_of b xs
unfolding update
transactions_of-update b id f [] same = refl
transactions_of-update b id f (x ∷ xs) same =
    ground (arith, same x, transactions_of-update b id f xs same)

transactions_of-find :
    (b : Uuid) (xs : List Transaction)
    → is_some (find booking_key b xs) ≡ false
    → transactions_of b xs ≡ 0
unfolding find
transactions_of-find b [] absent = refl
transactions_of-find b (x ∷ xs) absent = ground (arith, transactions_of-find b xs)

fits_new :
    (x : Transaction) (t : Tables)
    → txn_violation x t ≡ none
    → is_some (find booking_key x.booking_id t.transactions) ≡ false
unfolding txn_violation
fits_new x t fits = ground arith

refunds_of-append :
    (k : Uuid) (late : Bool) (rs : List RefundRequest) (r : RefundRequest)
    → refunds_of k late (rs ++ r ∷ []) ≡ refunds_of k late rs + (if refunds k late r then 1 else 0)
refunds_of-append k late [] r = omega arith
refunds_of-append k late (y ∷ rs) r = omega (arith, refunds_of-append k late rs r)

All-append :
    (rs : List RefundRequest) (r : RefundRequest)
    → All NamesOwn rs
    → NamesOwn r
    → All NamesOwn (rs ++ r ∷ [])
All-append [] r h own = (own, tt)
All-append (y ∷ rs) r (p, h) own = (p, All-append rs r h own)

pub key_eq→≡ : (a b : IdempotencyKey) → key_eq a b ≡ true → a ≡ b
key_eq→≡ (event_cancelled a) (event_cancelled b) e = ground arith
key_eq→≡ (late_payment a) (late_payment b) e = ground arith
key_eq→≡ (event_cancelled a) (late_payment b) e = ground arith
key_eq→≡ (late_payment a) (event_cancelled b) e = ground arith

same_key :
    (a b : IdempotencyKey) (late : Bool)
    → key_txn a ≡ key_txn b
    → same_bool (is_late a) late ≡ true
    → same_bool (is_late b) late ≡ true
    → key_eq a b ≡ true
same_key (event_cancelled x) (event_cancelled y) late e p q = ground (arith, ==-self x)
same_key (late_payment x) (late_payment y) late e p q = ground (arith, ==-self x)
same_key (event_cancelled x) (late_payment y) late e p q = ground arith
same_key (late_payment x) (event_cancelled y) late e p q = ground arith

-- Two requests of one transaction, for one reason, have one key.
same_refund :
    (k : Uuid) (late : Bool) (x r : RefundRequest)
    → NamesOwn x
    → NamesOwn r
    → refunds k late x ≡ true
    → refunds k late r ≡ true
    → key_eq x.idempotency_key r.idempotency_key ≡ true
same_refund k late x r own_x own_r p q =
    same_key x.idempotency_key r.idempotency_key late
      (own_x
        ∙ ==→≡ x.transaction_id k (ground (arith, p))
        ∙ sym (own_r ∙ ==→≡ r.transaction_id k (ground (arith, q))))
      (ground (arith, p)) (ground (arith, q))

refunds_of-has_key :
    (k : Uuid) (late : Bool) (r : RefundRequest) (rs : List RefundRequest)
    → All NamesOwn rs
    → NamesOwn r
    → refunds k late r ≡ true
    → has_key r.idempotency_key rs ≡ false
    → refunds_of k late rs ≡ 0
unfolding has_key
refunds_of-has_key k late r [] h own it absent = refl
refunds_of-has_key k late r (x ∷ rs) (own_x, h) own it absent =
    elim (Bool-cases (refunds k late x)) [
      | inl also ↦ absurd (ground (arith, same_refund k late x r own_x own also it, absent))
      | inr other ↦
          ground (arith, other, refunds_of-has_key k late r rs h own it (ground (arith, absent)))
    ]

-- What the two constraints say.
abbrev pub OnePerBooking : Tables → Type 0
OnePerBooking t = (b : Uuid) → transactions_of b t.transactions ≤ 1

abbrev pub OnePerReason : Tables → Type 0
OnePerReason t =
    ((k : Uuid) (late : Bool) → refunds_of k late t.refund_requests ≤ 1)
    × All NamesOwn t.refund_requests

new_booking :
    (x : Transaction) (now : ℕ) (t : Tables) (b : Uuid)
    → txn_violation x t ≡ none
    → transactions_of b t.transactions ≤ 1
    → transactions_of b (t.transactions ++ txn_row x now ∷ []) ≤ 1
new_booking x now t b fits h = elim (Bool-cases (x.booking_id == b)) [
  | inl same ↦ ground (
    arith,
    transactions_of-append b t.transactions (txn_row x now),
    transactions_of-find b t.transactions (rw (← (==→≡ x.booking_id b same)) (fits_new x t fits)),
  )
  | inr other ↦ ground (arith, transactions_of-append b t.transactions (txn_row x now))
]

new_request :
    (r : RefundRequest) (t : Tables) (k : Uuid) (late : Bool)
    → NamesOwn r
    → has_key r.idempotency_key t.refund_requests ≡ false
    → OnePerReason t
    → refunds_of k late (t.refund_requests ++ r ∷ []) ≤ 1
new_request r t k late own fresh h = elim (Bool-cases (refunds k late r)) [
  | inl it ↦ ground (
    arith,
    it,
    refunds_of-append k late t.refund_requests r,
    refunds_of-has_key k late r t.refund_requests h.1 own it fresh,
  )
  | inr other ↦ ground (arith, other, refunds_of-append k late t.refund_requests r, h.0 k late)
]

booking-Law : Law OnePerBooking (λ _ _. OnePerBooking)
booking-Law = record {
  creates = λ x now t fits _ h b. new_booking x now t b fits (h b);
  edits = λ f id t same h b.
      omega (arith, h b, transactions_of-update b id f t.transactions same.same_booking);
  moves = λ to ref now id x t there live h b.
      omega (arith, h b, transactions_of-update b id (moved to ref now) t.transactions (λ _. refl));
  settles = λ to id key m t says h. h;
  drops = λ to id t h. h;
  refunds = λ r t _ _ h. h;
  voids = λ refs t h. h;
}

reason-Law : Law OnePerReason (λ _ _. OnePerReason)
reason-Law = record {
  creates = λ x now t _ _ h. h;
  edits = λ f id t same h. h;
  moves = λ to ref now id x t there live h. h;
  settles = λ to id key m t says h. h;
  drops = λ to id t h. h;
  refunds = λ r t own fresh h.
      ((λ k late. new_request r t k late own fresh h), All-append t.refund_requests r h.1 own);
  voids = λ refs t h. h;
}

-- Over any history of calls, whichever statements fail on the way: where no booking has two
-- transactions, none has two afterwards.
pub run-OnePerBooking :
    (cs : List Call) (w : World Tables) → OnePerBooking w.tables → OnePerBooking (run cs w).tables
run-OnePerBooking cs w h = Law-run booking-Law cs w h

-- Over any history of calls, whichever statements fail on the way: where no transaction has two
-- refund requests for its late payment, or two for the cancelled event, and every key names the
-- transaction of its request, the same holds afterwards.
pub run-OnePerReason :
    (cs : List Call) (w : World Tables) → OnePerReason w.tables → OnePerReason (run cs w).tables
run-OnePerReason cs w h = Law-run reason-Law cs w h
