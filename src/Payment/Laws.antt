-- ===== src/Payment/Laws.antt =====
-- What an invariant of the payment service's tables has to satisfy: one law for each kind of write.
-- The children follow every handler down to its writes, so an invariant with these laws holds
-- throughout any history of calls.
pub mod Steps
pub mod Requests
pub mod Settling
pub mod Handlers
use ticketbus.Base.{
  ℕ, ◌≤◌, ◌≡◌, Bool, true, false, ◌&&◌, Uuid, Option, none, some, List, [], ◌∷◌, ◌++◌, ◌==◌,
  if◌then◌else◌, String,
}
use ticketbus.Table.{find, update}
use ticketbus.Dto.{Message, payment_completed, payment_expired, event_cancelled, ticket_issued}
use ticketbus.Outbox.{Key, insert_row}
use ticketbus.Payment.Domain.{
  key_txn, Tables, Transaction, RefundRequest, PaymentStatus, initiated, completed, expired,
  status_eq, is_active, txn_key,
}
use ticketbus.Payment.Repo.{moved, txn_row, txn_violation, has_key}

-- The message tells of transaction `k` that it ended in status `s`.
abbrev pub announces : PaymentStatus → Uuid → Message → Bool
announces s k (payment_completed m) = status_eq s completed && m.transaction_id == k
announces s k (payment_expired m) = status_eq s expired && m.transaction_id == k
announces s k (event_cancelled m) = false
announces s k (ticket_issued m) = false

abbrev pub one : PaymentStatus → Uuid → PaymentStatus → Uuid → ℕ
one to id s k = if status_eq to s && id == k then 1 else 0

-- The message tells of no other settlement than this one.
abbrev pub Tells : PaymentStatus → Uuid → Message → Type 0
Tells to id m = (s : PaymentStatus) (k : Uuid) → (if announces s k m then 1 else 0) ≤ one to id s k

-- An update that leaves alone whose transaction it is, its amount, its deadline and its status.
pub record Touches (f : Transaction → Transaction) : Type 0 where
  pub same_id : (x : Transaction) → (f x).id ≡ x.id
  pub same_booking : (x : Transaction) → (f x).booking_id ≡ x.booking_id
  pub same_user : (x : Transaction) → (f x).user_id ≡ x.user_id
  pub same_amount : (x : Transaction) → (f x).amount_rupiah ≡ x.amount_rupiah
  pub same_deadline : (x : Transaction) → (f x).expires_at ≡ x.expires_at
  pub same_status : (x : Transaction) → (f x).status ≡ x.status

-- `I` is the invariant, `Owing to id` what holds between the move of transaction `id` to status `to`
-- and the message that tells of it.
pub record Law (I : Tables → Type 0) (Owing : PaymentStatus → Uuid → Tables → Type 0) : Type 0 where
  pub creates :
      (x : Transaction) (now : ℕ) (t : Tables)
      → txn_violation x t ≡ none
      → x.status ≡ initiated
      → I t
      → I (record t { transactions = t.transactions ++ txn_row x now ∷ [] })
  pub edits :
      (f : Transaction → Transaction) (id : Uuid) (t : Tables)
      → Touches f
      → I t
      → I (record t { transactions = update txn_key id f t.transactions })
  pub moves :
      (to : PaymentStatus) (ref : String) (now : ℕ) (id : Uuid) (x : Transaction) (t : Tables)
      → find txn_key id t.transactions ≡ some x
      → is_active x.status ≡ true
      → I t
      → Owing to id
          (record t { transactions = update txn_key id (moved to ref now) t.transactions })
  pub settles :
      (to : PaymentStatus) (id : Uuid) (key : Key) (m : Message) (t : Tables)
      → Tells to id m
      → Owing to id t
      → I (record t { outbox = insert_row key m t.outbox })
  pub drops : (to : PaymentStatus) (id : Uuid) (t : Tables) → Owing to id t → I t
  pub refunds :
      (r : RefundRequest) (t : Tables)
      → key_txn r.idempotency_key ≡ r.transaction_id
      → has_key r.idempotency_key t.refund_requests ≡ false
      → I t
      → I (record t { refund_requests = t.refund_requests ++ r ∷ [] })
  pub voids : (refs : List String) (t : Tables) → I t → I (record t { voided = refs })
