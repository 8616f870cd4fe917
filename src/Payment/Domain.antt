-- ===== src/Payment/Domain.antt =====
-- service/payment/internal/domain, and the tables of migrations/payment. Amounts are patterns of
-- 64-bit integers, times are nanoseconds.
use ticketbus.Base.{ℕ, ◌==◌, Bool, true, false, Uuid, String, Option, List}
use ticketbus.Db.{Action}
use ticketbus.Outbox.{Outbox}

-- `missing_reference_id` is the error that the webhook's handler makes itself; `ErrNoRows` is
-- `DbError.no_rows`.
pub data Error : Type 0 where
  transaction_not_found already_processed transaction_expired gateway_unavailable : Error
  unsupported_channel missing_reference_id : Error

pub data PaymentStatus : Type 0 where
  initiated pending completed expired : PaymentStatus

abbrev pub status_eq : PaymentStatus → PaymentStatus → Bool
status_eq initiated initiated = true
status_eq pending pending = true
status_eq completed completed = true
status_eq expired expired = true
status_eq _ _ = false

-- `ActiveStatuses`
abbrev pub is_active : PaymentStatus → Bool
is_active initiated = true
is_active pending = true
is_active completed = false
is_active expired = false

pub data RefundStatus : Type 0 where
  none pending success : RefundStatus

pub record Transaction : Type 0 where
  pub id : Uuid
  pub user_id : Uuid
  pub booking_id : Uuid
  pub event_id : Uuid
  pub amount_rupiah : ℕ
  pub currency : String
  pub status : PaymentStatus
  pub provider : String
  pub provider_ref : String
  pub payment_link_url : String
  pub customer_email : String
  pub refund_status : RefundStatus
  pub expires_at : Option ℕ
  pub created_at : ℕ
  pub updated_at : ℕ

-- `"event-cancelled:" + txn.ID` and `"late-payment:" + txn.ID`, two prefixes that keep the keys
-- apart.
pub data IdempotencyKey : Type 0 where
  event_cancelled late_payment : Uuid → IdempotencyKey

abbrev pub key_eq : IdempotencyKey → IdempotencyKey → Bool
key_eq (event_cancelled a) (event_cancelled b) = a == b
key_eq (late_payment a) (late_payment b) = a == b
key_eq _ _ = false

-- The transaction that a key names.
abbrev pub key_txn : IdempotencyKey → Uuid
key_txn (event_cancelled id) = id
key_txn (late_payment id) = id

-- A new request has status `pending`; nothing in the service moves it on.
pub record RefundRequest : Type 0 where
  pub id : Uuid
  pub event_id : Uuid
  pub booking_id : Uuid
  pub transaction_id : Uuid
  pub customer_email : String
  pub amount_rupiah : ℕ
  pub currency : String
  pub reason : String
  pub idempotency_key : IdempotencyKey
  pub provider_ref : String

pub record SessionResult : Type 0 where
  pub provider_ref : String
  pub payment_link_url : String
  pub expires_at : ℕ

-- `voided` is not a table: it lists the sessions that the gateway was asked to cancel.
pub record Tables : Type 0 where
  pub transactions : List Transaction
  pub refund_requests : List RefundRequest
  pub outbox : Outbox
  pub voided : List String

abbrev pub txn_key : Transaction → ℕ
txn_key t = t.id

abbrev pub booking_key : Transaction → ℕ
booking_key t = t.booking_id

abbrev pub refund_key : RefundRequest → ℕ
refund_key r = r.id

-- What a method of the service does.
abbrev pub Payments : Type 0 → Type 0
Payments A = Action Tables Error A
