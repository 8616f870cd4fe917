-- ===== src/Payment/Service.antt =====
-- application/payment_service.go and transactions.go: the transaction of a booking, and its gateway
-- session. The clock, the drawn ids and the gateway's answers are fields of `Env`.
use ticketbus.Base.{
  ℕ, ◌+◌, ◌-◌, ◌*◌, Bool, true, false, not, ◌||◌, Uuid, String, Option, none, some, ◌++◌, [], ◌∷◌,
  ⊤, ltb, ◌==◌, if◌then◌else◌,
}
use ticketbus.Db.{
  Result, ok, err, db_err, DbError, pure, raise, raise_db, raise_if, attempt, done, ◌>>=◌, ◌>>◌,
}
use ticketbus.Payment.Domain.{
  Transaction, RefundStatus, SessionResult, initiated, pending, status_eq, Payments, Error,
  transaction_not_found, already_processed, transaction_expired, gateway_unavailable,
}
use ticketbus.Payment.Repo

-- `PaymentProcessor.CreateSession`: what the service asks of the gateway.
pub record SessionRequest : Type 0 where
  pub reference_id : Uuid
  pub amount_rupiah : ℕ
  pub currency : String
  pub expires_at : ℕ
  pub email : String

pub record Env : Type 0 where
  pub now : ℕ
  pub id : Uuid
  pub provider : String
  pub gateway_expiry_buffer_min : ℕ
  pub create_session : SessionRequest → Option SessionResult

abbrev pub minute : ℕ
minute = 60000000000

-- The source leaves the two times unset: the schema sets them in the row.
unfoldable pub new_txn : Env → Uuid → Uuid → Uuid → String → ℕ → ℕ → Transaction
new_txn env booking event user email amount expires = record {
  id = env.id;
  user_id = user;
  booking_id = booking;
  event_id = event;
  amount_rupiah = amount;
  currency = "IDR";
  status = initiated;
  provider = env.provider;
  provider_ref = "";
  payment_link_url = "";
  customer_email = email;
  refund_status = RefundStatus.none;
  expires_at = some expires;
  created_at = 0;
  updated_at = 0;
}

-- Error 23505, a unique violation, means that the booking has its transaction: that one is returned.
abbrev pub created_or_existing : Transaction → Result Error ⊤ → Payments Transaction
created_or_existing x (ok _) = pure x
created_or_existing x (err e) = raise e
created_or_existing x (db_err DbError.unique_violation) = Repo.find_by_booking_id x.booking_id
created_or_existing x (db_err e) = raise_db e

unfoldable pub initiate_txn_for_booking :
    Env → Uuid → Uuid → Uuid → String → ℕ → ℕ → Payments Transaction
initiate_txn_for_booking env booking event user email amount expires = do
  let x = new_txn env booking event user email amount expires
  r ← attempt (Repo.create x env.now)
  created_or_existing x r

-- Every error reads as `ErrTransactionNotFound`.
abbrev pub found : Result Error Transaction → Payments Transaction
found (ok x) = pure x
found (err _) = raise transaction_not_found
found (db_err _) = raise transaction_not_found

unfoldable pub get_payment_status : Uuid → Payments Transaction
get_payment_status booking = do r ← attempt (Repo.find_by_booking_id booking); found r

-- No deadline, a deadline that has passed, or less than a minute to go.
unfoldable pub is_closing : Option ℕ → ℕ → Bool
is_closing none now = true
is_closing (some e) now = not (ltb now e) || ltb (e - now) minute

-- The deadline less the buffer, but not within ten minutes from now. Where the buffer exceeds the
-- deadline the difference stops at 0, which the second part of the test then replaces as well.
unfoldable pub gateway_expiry : Env → ℕ → ℕ
gateway_expiry env e =
    let wanted = e - env.gateway_expiry_buffer_min * minute in
    let earliest = env.now + 10 * minute in if ltb wanted earliest then earliest else wanted

abbrev pub deadline : Option ℕ → ℕ
deadline none = 0
deadline (some e) = e

unfoldable pub session_request : Env → Transaction → SessionRequest
session_request env x = record {
  reference_id = x.booking_id;
  amount_rupiah = x.amount_rupiah;
  currency = x.currency;
  expires_at = gateway_expiry env (deadline x.expires_at);
  email = x.customer_email;
}

-- `processor.CancelSession`, whose outcome the service ignores or logs.
unfoldable pub cancel_session : String → Payments ⊤
cancel_session ref w =
    (ok tt, record w { tables = record (w.tables) { voided = w.tables.voided ++ ref ∷ [] } })

abbrev pub session_or_error : Option SessionResult → Payments SessionResult
session_or_error none = raise gateway_unavailable
session_or_error (some s) = pure s

-- Where another request settled the transaction first, the new session is voided.
unfoldable pub keep_or_void : Bool → SessionResult → Payments ⊤
keep_or_void true s = done
keep_or_void false s = do cancel_session s.provider_ref; raise already_processed

-- `ProcessPayment` once the transaction may be paid.
unfoldable pub open_session : Env → Transaction → Payments (Transaction × SessionResult)
open_session env x = do
  s ← session_or_error (env.create_session (session_request env x))
  applied ← Repo.transition_if_initiated x.id pending s.provider_ref env.now
  keep_or_void applied s
  Repo.update_session x.id s.provider_ref s.payment_link_url env.now
  pure (x, s)

unfoldable pub process_payment : Env → Uuid → Uuid → Payments (Transaction × SessionResult)
unfolding get_payment_status
process_payment env booking user = do
  x ← get_payment_status booking
  raise_if (not (status_eq x.status initiated)) already_processed
  raise_if (is_closing x.expires_at env.now) transaction_expired
  raise_if (not (x.user_id == user)) transaction_not_found
  open_session env x
