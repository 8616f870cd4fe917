-- ===== src/Payment/Webhook.antt =====
-- application/webhook.go and event_handlers.go: what the gateway and a cancelled event do to
-- transactions. The JSON decoder is not modelled: a webhook is what it decodes, and an empty
-- `reference_id` is `none`.
use text.Mathlib.Text.{◌==◌ as str_eq}
use ticketbus.Base.{
  ℕ, Bool, true, false, not, ◌&&◌, Uuid, String, Option, none, some, List, [], ◌∷◌, ⊤,
  if◌then◌else◌,
}
use ticketbus.Db.{Result, ok, err, db_err, pure, raise, attempt, ignore, done, exec, ◌>>=◌, ◌>>◌}
use ticketbus.Dto.{Message, payment_completed, payment_expired}
use ticketbus.Outbox.{of_row, insert_row}
use ticketbus.Payment.Domain.{
  Transaction, RefundRequest, RefundStatus, PaymentStatus, initiated, pending, completed, expired,
  status_eq, IdempotencyKey, event_cancelled, late_payment, Payments, Error, missing_reference_id,
}
use ticketbus.Payment.Repo

pub record SessionWebhook : Type 0 where
  pub event : String
  pub reference_id : Option Uuid
  pub payment_session_id : String
  pub id : String

-- The clock, and the id for a refund request.
pub record Env : Type 0 where
  pub now : ℕ
  pub refund_id : Uuid

unfoldable pub session_id : SessionWebhook → String
session_id p = if str_eq p.payment_session_id "" then p.id else p.payment_session_id

pub data Kind : Type 0 where
  completes expires other : Kind

-- The `switch` on the event's name.
unfoldable pub kind_of : String → Kind
kind_of e =
    if str_eq e "payment_session.completed"
    then completes
    else if str_eq e "payment_session.expired"
    then expires
    else other

-- A session id that is given and is not the transaction's.
unfoldable pub mismatch : SessionWebhook → Transaction → Bool
mismatch p x = not (str_eq (session_id p) "") && not (str_eq (session_id p) x.provider_ref)

abbrev pub completed_message : Transaction → ℕ → Message
completed_message x now = payment_completed (record {
  transaction_id = x.id;
  booking_id = x.booking_id;
  event_id = x.event_id;
  user_id = x.user_id;
  at = now;
})

abbrev pub expired_message : Transaction → String → ℕ → Message
expired_message x reason now = payment_expired (record {
  transaction_id = x.id;
  booking_id = x.booking_id;
  event_id = x.event_id;
  user_id = x.user_id;
  reason = reason;
  at = now;
})

-- `_ = s.outbox.Insert(…)`
unfoldable pub announce : Transaction → Message → Payments ⊤
announce x m = ignore (exec λ t. ok (tt, record t { outbox = insert_row (of_row x.id) m t.outbox }))

abbrev pub refund_for : Transaction → Uuid → String → IdempotencyKey → RefundRequest
refund_for x id reason key = record {
  id = id;
  event_id = x.event_id;
  booking_id = x.booking_id;
  transaction_id = x.id;
  customer_email = x.customer_email;
  amount_rupiah = x.amount_rupiah;
  currency = x.currency;
  reason = reason;
  idempotency_key = key;
  provider_ref = x.provider_ref;
}

-- A failed insert is logged, and the method returns.
abbrev pub mark_refund : Transaction → ℕ → Result Error ⊤ → Payments ⊤
mark_refund x now (ok _) = ignore (Repo.update_refund_status x.id RefundStatus.pending now)
mark_refund x now (err _) = done
mark_refund x now (db_err _) = done

unfoldable pub request_late_payment_refund : Env → Transaction → Payments ⊤
request_late_payment_refund env x = do
  r ← attempt (Repo.create_refund (refund_for x env.refund_id "late_payment" (late_payment x.id)))
  mark_refund x env.now r

-- After the guarded transition to `completed`: the status is the one read before it.
unfoldable pub after_completed : Env → Transaction → Bool → Payments ⊤
after_completed env x true = announce x (completed_message x env.now)
after_completed env x false =
    if status_eq x.status expired then request_late_payment_refund env x else done

unfoldable pub after_expired : Env → Transaction → String → Bool → Payments ⊤
after_expired env x reason true = announce x (expired_message x reason env.now)
after_expired env x reason false = done

unfoldable pub apply_webhook : Env → Kind → Transaction → Payments ⊤
apply_webhook env completes x = do
  applied ← Repo.transition_if_active x.id completed x.provider_ref env.now
  after_completed env x applied
apply_webhook env expires x = do
  applied ← Repo.transition_if_active x.id expired x.provider_ref env.now
  after_expired env x "gateway_expired" applied
apply_webhook env other x = done

unfoldable pub apply_unless : Bool → Env → Kind → Transaction → Payments ⊤
apply_unless true env k x = done
apply_unless false env k x = apply_webhook env k x

abbrev pub need_reference : Option Uuid → Payments Uuid
need_reference none = raise missing_reference_id
need_reference (some id) = pure id

unfoldable pub handle_session_webhook : Env → SessionWebhook → Payments ⊤
handle_session_webhook env p = do
  booking ← need_reference p.reference_id
  x ← Repo.find_by_booking_id booking
  apply_unless (mismatch p x) env (kind_of p.event) x

-- One round of the loop of `HandleEventCancelled`: only a completed transaction is refunded. `id` is
-- drawn for the request.
unfoldable pub refund_completed : ℕ → Uuid → Transaction → PaymentStatus → Payments ⊤
refund_completed now id x completed = do
  Repo.create_refund (refund_for x id "event_cancelled" (event_cancelled x.id))
  Repo.update_refund_status x.id RefundStatus.pending now
refund_completed now id x initiated = done
refund_completed now id x pending = done
refund_completed now id x expired = done

unfoldable pub refund_each : ℕ → (Uuid → Uuid) → List Transaction → Payments ⊤
refund_each now draw [] = done
refund_each now draw (x ∷ xs) = do
  refund_completed now (draw x.id) x x.status
  refund_each now draw xs

-- `draw` gives each transaction's request its id.
unfoldable pub handle_event_cancelled : ℕ → (Uuid → Uuid) → Uuid → Payments ⊤
handle_event_cancelled now draw event = do xs ← Repo.list_by_event_id event; refund_each now draw xs
