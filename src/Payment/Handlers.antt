-- ===== src/Payment/Handlers.antt =====
-- service/payment/internal/handler: the endpoints, the guards of the internal route and of the
-- webhook. Times are answered as they are; their format is left out. What JSON decodes to is an
-- argument.
use ticketbus.Base.{⊤, ℕ, Uuid, String, Option, none, some, List, map, if◌then◌else◌, int_gt}
use ticketbus.Text
use ticketbus.Db.{World, Result, ok, err, db_err, DbError}
use ticketbus.Http.{
  is_user, if_known, Response, failed, success, created, bad_request, unauthorized, not_found,
  internal_server_error, Context, Endpoint, answer, respond,
}
use ticketbus.Payment.Domain.{
  Tables, Transaction, RefundStatus, PaymentStatus, SessionResult, Error, transaction_not_found,
  already_processed, transaction_expired, gateway_unavailable,
}
use ticketbus.Payment.Repo
use ticketbus.Payment.Service
use ticketbus.Payment.Service.{Env}
use ticketbus.Payment.Webhook
use ticketbus.Payment.Webhook.{SessionWebhook, handle_session_webhook}

pub record TransactionResponse : Type 0 where
  pub id : Uuid
  pub booking_id : Uuid
  pub event_id : Uuid
  pub amount_rupiah : ℕ
  pub currency : String
  pub status : PaymentStatus
  pub refund_status : RefundStatus
  pub payment_link_url : String
  pub expires_at : Option ℕ
  pub created_at : ℕ

-- An id that the body does not give is empty.
pub record InternalCreateRequest : Type 0 where
  pub booking_id : Option Uuid
  pub event_id : Option Uuid
  pub user_id : Option Uuid
  pub email : String
  pub amount_rupiah : ℕ
  pub expires_at : ℕ

pub record ProcessPaymentResponse : Type 0 where
  pub transaction_id : Uuid
  pub payment_session_id : String
  pub payment_link_url : String
  pub amount_rupiah : ℕ
  pub currency : String
  pub status : PaymentStatus
  pub expires_at : Option ℕ

pub record PaymentStatusResponse : Type 0 where
  pub transaction_id : Uuid
  pub status : PaymentStatus
  pub payment_link_url : String
  pub amount_rupiah : ℕ
  pub currency : String

pub data Body : Type 0 where
  initiated_txn : (transaction_id booking_id : Uuid) → Body
  session : ProcessPaymentResponse → Body
  payment_status : PaymentStatusResponse → Body
  transaction : TransactionResponse → Body
  transactions : List TransactionResponse → Body
  received : Body

-- The header has the key: `subtle.ConstantTimeCompare`.
unfoldable pub require_key : {T B : Type 0} → String → String → String → Endpoint T B → Endpoint T B
require_key refusal key header next =
    if Text.◌==◌ header key then next else answer (unauthorized refusal)

abbrev pub txn_initiated : Result Error Transaction → Response Body
txn_initiated (ok x) = created (initiated_txn x.id x.booking_id)
txn_initiated (err _) = internal_server_error "failed to create transaction"
txn_initiated (db_err _) = internal_server_error "failed to create transaction"

abbrev pub incomplete : Endpoint Tables Body
incomplete = answer (bad_request "booking_id, event_id, user_id and amount_rupiah are required")

unfoldable pub initiate_with :
    Env → Option Uuid → Option Uuid → Option Uuid → InternalCreateRequest → Endpoint Tables Body
initiate_with env (some booking) (some user) (some event) q =
    if int_gt q.amount_rupiah 0
    then respond
        (Service.initiate_txn_for_booking env booking event user q.email q.amount_rupiah
          q.expires_at)
        txn_initiated
    else incomplete
initiate_with env _ _ _ q = incomplete

-- The route's guard, then the handler.
unfoldable pub initiate_txn_for_booking :
    Env → String → String → Option InternalCreateRequest → Endpoint Tables Body
initiate_txn_for_booking env key header none =
    require_key "invalid internal key" key header (answer (bad_request "invalid request body"))
initiate_txn_for_booking env key header (some q) =
    require_key "invalid internal key" key header
      (initiate_with env q.booking_id q.user_id q.event_id q)

abbrev pub payment_opened : Result Error (Transaction × SessionResult) → Response Body
payment_opened (ok (x, s)) = success (
    session (record {
      transaction_id = x.id;
      payment_session_id = s.provider_ref;
      payment_link_url = s.payment_link_url;
      amount_rupiah = x.amount_rupiah;
      currency = x.currency;
      status = x.status;
      expires_at = x.expires_at;
    }))
payment_opened (err transaction_not_found) = not_found "transaction not found"
payment_opened (err already_processed) = failed 409 "payment already initiated"
payment_opened (err transaction_expired) = failed 409 "booking has expired"
payment_opened (err gateway_unavailable) =
    failed 502 "payment provider unavailable, please try again"
payment_opened (err _) = internal_server_error "failed to initiate payment"
payment_opened (db_err _) = internal_server_error "failed to initiate payment"

unfoldable pub process_payment : Env → Uuid → Context → Endpoint Tables Body
process_payment env booking c =
    if_known c.user_id λ user. respond (Service.process_payment env booking user) payment_opened

abbrev pub status_shown : Result Error Transaction → Response Body
status_shown (ok x) = success (
    payment_status (record {
      transaction_id = x.id;
      status = x.status;
      payment_link_url = x.payment_link_url;
      amount_rupiah = x.amount_rupiah;
      currency = x.currency;
    }))
status_shown (err transaction_not_found) = not_found "transaction not found"
status_shown (err _) = internal_server_error "failed to load payment status"
status_shown (db_err _) = internal_server_error "failed to load payment status"

-- The caller is not asked for: any customer reads any booking's payment.
unfoldable pub get_payment_status : Uuid → Endpoint Tables Body
get_payment_status booking = respond (Service.get_payment_status booking) status_shown

abbrev pub webhook_received : String → Result Error ⊤ → Response Body
webhook_received failure (ok _) = success received
webhook_received failure (err _) = bad_request failure
webhook_received failure (db_err DbError.no_rows) = not_found "transaction not found"
webhook_received failure (db_err _) = bad_request failure

abbrev pub deliver : Webhook.Env → Option SessionWebhook → Endpoint Tables Body
deliver env none = answer (bad_request "invalid webhook payload")
deliver env (some p) =
    respond (handle_session_webhook env p) (webhook_received "invalid webhook payload")

abbrev pub read_body : Webhook.Env → Option (Option SessionWebhook) → Endpoint Tables Body
read_body env none = answer (bad_request "failed to read body")
read_body env (some p) = deliver env p

-- No body is one that cannot be read; its content is what it decodes to.
unfoldable pub webhook :
    Webhook.Env → String → String → Option (Option SessionWebhook) → Endpoint Tables Body
webhook env token header body =
    require_key "invalid callback token" token header (read_body env body)

-- What the simulator sends for a booking.
abbrev pub simulated : String → Uuid → Transaction → SessionWebhook
simulated event booking x = record {
  event = event;
  reference_id = some booking;
  payment_session_id = x.provider_ref;
  id = "";
}

abbrev pub simulate_found :
    Webhook.Env
    → String
    → Uuid
    → Result Error Transaction × World Tables
    → Response Body × World Tables
simulate_found env event booking (ok x, w) =
    respond (handle_session_webhook env (simulated event booking x))
      (webhook_received "mock webhook failed") w
simulate_found env event booking (err _, w) = (not_found "transaction not found", w)
simulate_found env event booking (db_err _, w) = (not_found "transaction not found", w)

unfoldable pub simulate : Webhook.Env → String → Uuid → Endpoint Tables Body
simulate env event booking w =
    simulate_found env event booking (Service.get_payment_status booking w)

-- The event that a status of the path stands for.
abbrev pub event_of : String → Option String
event_of status =
    if Text.◌==◌ status "success"
    then some "payment_session.completed"
    else if Text.◌==◌ status "expired"
    then some "payment_session.expired"
    else none

abbrev pub simulate_if : Webhook.Env → Uuid → Option String → Endpoint Tables Body
simulate_if env booking none = answer (bad_request "status must be 'success' or 'expired'")
simulate_if env booking (some event) = simulate env event booking

unfoldable pub mock_session_webhook : Webhook.Env → Uuid → String → Endpoint Tables Body
mock_session_webhook env booking status = simulate_if env booking (event_of status)

-- The answers of GetStatus and of the list, without the link and the deadline.
abbrev pub brief : Transaction → TransactionResponse
brief x = record {
  id = x.id;
  booking_id = x.booking_id;
  event_id = x.event_id;
  amount_rupiah = x.amount_rupiah;
  currency = x.currency;
  status = x.status;
  refund_status = x.refund_status;
  payment_link_url = "";
  expires_at = none;
  created_at = x.created_at;
}

abbrev pub full : Transaction → TransactionResponse
full x = record (brief x) { payment_link_url = x.payment_link_url; expires_at = x.expires_at }

abbrev pub briefly : Result Error Transaction → Response Body
briefly (ok x) = success (transaction (brief x))
briefly (err _) = not_found "transaction not found"
briefly (db_err _) = not_found "transaction not found"

-- Here too any customer reads any transaction.
unfoldable pub get_status : Uuid → Endpoint Tables Body
get_status id = respond (Repo.find_by_id id) briefly

abbrev pub own_transaction : Option Uuid → Result Error Transaction → Response Body
own_transaction user (ok x) =
    if is_user user x.user_id
    then success (transaction (full x))
    else not_found "transaction not found"
own_transaction user (err _) = not_found "transaction not found"
own_transaction user (db_err _) = not_found "transaction not found"

unfoldable pub get_transaction : Uuid → Context → Endpoint Tables Body
get_transaction id c = respond (Repo.find_by_id id) (own_transaction c.user_id)

abbrev pub my_transactions : Result Error (List Transaction) → Response Body
my_transactions (ok xs) = success (transactions (map brief xs))
my_transactions (err _) = internal_server_error "failed to list transactions"
my_transactions (db_err _) = internal_server_error "failed to list transactions"

unfoldable pub list_transactions : Context → Endpoint Tables Body
list_transactions c = if_known c.user_id λ user. respond (Repo.list_by_user user) my_transactions
