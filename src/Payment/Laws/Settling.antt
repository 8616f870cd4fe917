-- ===== src/Payment/Laws/Settling.antt =====
-- service/payment/internal/application/webhook.go, event_handlers.go and expiry.go keep
-- an invariant with the laws.
use text.Mathlib.Text.{◌==◌ as str_eq}
use ticketbus.Base.{
  refl, Bool-cases, ℕ, Bool, true, false, Uuid, String, Option, none, some, inl, inr, List, [], ◌∷◌,
  ⊤, arith, if◌then◌else◌,
}
use ticketbus.Db.{World, Result, ok, err, db_err, attempt, done}
use ticketbus.Db.Ensures.{Outcome, Ensures-bind, Ensures-attempt}
use ticketbus.Payment.Domain.{
  Tables, Transaction, RefundRequest, RefundStatus, PaymentStatus, initiated, pending, completed,
  expired, status_eq, Error, late_payment, event_cancelled,
}
use ticketbus.Payment.Repo
use ticketbus.Payment.Service.{cancel_session}
use ticketbus.Payment.Webhook
use ticketbus.Payment.Webhook.{
  SessionWebhook, Kind, completes, expires, other, kind_of, mismatch, announce, completed_message,
  expired_message, refund_for, mark_refund, request_late_payment_refund, after_completed,
  after_expired, apply_webhook, apply_unless, need_reference, handle_session_webhook,
  refund_completed, refund_each, handle_event_cancelled,
}
use ticketbus.Payment.Poller.{cancel_if_open, announce_if, expire_one, expire_each}
use ticketbus.Payment.Laws.{Law}
use ticketbus.Payment.Laws.Steps.{
  Keeps-update_refund_status, Keeps-create_refund, AfterMove, Moves-transition_if_active,
  Settles-announce,
}
use ticketbus.Db.Keeps.{Keeps, Keeps-then, Keeps-attempt, Keeps-ignore, Keeps-find}

module _ {I : Tables → Type 0} {Owing : PaymentStatus → Uuid → Tables → Type 0}
    (law : Law I Owing) where
  pub Keeps-refund :
      (env : Webhook.Env) (x : Transaction) (w : World Tables)
      → I w.tables
      → Keeps I (request_late_payment_refund env x w)
  unfolding request_late_payment_refund
  Keeps-refund env x w h =
      Keeps-attempt I (Repo.create_refund request) (mark_refund x env.now) w
        (Keeps-create_refund law request w refl h) mark
    where
      request : RefundRequest
      request = refund_for x env.refund_id "late_payment" (late_payment x.id)

      mark :
          (r : Result Error ⊤) (w' : World Tables)
          → I w'.tables
          → Keeps I (mark_refund x env.now r w')
      mark (ok _) w' h' =
          Keeps-ignore I (Repo.update_refund_status x.id RefundStatus.pending env.now) w'
            (Keeps-update_refund_status law x.id RefundStatus.pending env.now w' h')
      mark (err _) w' h' = h'
      mark (db_err _) w' h' = h'

  pub Keeps-after_completed :
      (env : Webhook.Env) (x : Transaction) (applied : Bool) (w : World Tables)
      → AfterMove I (Owing completed x.id) applied w.tables
      → Keeps I (after_completed env x applied w)
  unfolding after_completed
  Keeps-after_completed env x true w h =
      Settles-announce law completed x (completed_message x env.now) w (λ s k. ground arith) h
  Keeps-after_completed env x false w h = late (status_eq x.status expired)
    where
      late :
          (is_late : Bool)
          → Keeps I ((if is_late then request_late_payment_refund env x else done) w)
      late true = Keeps-refund env x w h
      late false = h

  pub Keeps-after_expired :
      (now : ℕ) (reason : String) (x : Transaction) (w : World Tables)
      → AfterMove I (Owing expired x.id) true w.tables
      → Keeps I (announce x (expired_message x reason now) w)
  Keeps-after_expired now reason x w h =
      Settles-announce law expired x (expired_message x reason now) w (λ s k. ground arith) h

  pub Keeps-apply_webhook :
      (env : Webhook.Env) (kind : Kind) (x : Transaction) (w : World Tables)
      → I w.tables
      → Keeps I (apply_webhook env kind x w)
  unfolding apply_webhook after_expired
  Keeps-apply_webhook env completes x w h =
      Ensures-bind (AfterMove I (Owing completed x.id)) (λ _. I) I
        (Repo.transition_if_active x.id completed x.provider_ref env.now) (after_completed env x) w
        (Moves-transition_if_active law completed x.provider_ref env.now x.id w h)
        (Keeps-after_completed env x)
  Keeps-apply_webhook env expires x w h =
      Ensures-bind (AfterMove I (Owing expired x.id)) (λ _. I) I
        (Repo.transition_if_active x.id expired x.provider_ref env.now)
        (after_expired env x "gateway_expired") w
        (Moves-transition_if_active law expired x.provider_ref env.now x.id w h) told
    where
      told :
          (applied : Bool) (w' : World Tables)
          → AfterMove I (Owing expired x.id) applied w'.tables
          → Keeps I (after_expired env x "gateway_expired" applied w')
      told true w' h' = Keeps-after_expired env.now "gateway_expired" x w' h'
      told false w' h' = h'
  Keeps-apply_webhook env other x w h = h

  pub Keeps-webhook :
      (env : Webhook.Env) (p : SessionWebhook) (w : World Tables)
      → I w.tables
      → Keeps I (handle_session_webhook env p w)
  unfolding handle_session_webhook Repo.find_by_booking_id apply_unless
  Keeps-webhook env p w h =
      Keeps-then I (need_reference p.reference_id) _ w (referred p.reference_id) λ booking w1 h1.
        Keeps-then I (Repo.find_by_booking_id booking) _ w1 (Keeps-find Error I _ w1 h1)
          λ x w2 h2. applied x w2 h2 (mismatch p x)
    where
      referred : (r : Option Uuid) → Keeps I (need_reference r w)
      referred none = h
      referred (some id) = h

      applied :
          (x : Transaction) (w' : World Tables)
          → I w'.tables
          → (skip : Bool) → Keeps I (apply_unless skip env (kind_of p.event) x w')
      applied x w' h' true = h'
      applied x w' h' false = Keeps-apply_webhook env (kind_of p.event) x w' h'

  pub Keeps-refund_completed :
      (now : ℕ) (id : Uuid) (x : Transaction) (s : PaymentStatus) (w : World Tables)
      → I w.tables
      → Keeps I (refund_completed now id x s w)
  unfolding refund_completed
  Keeps-refund_completed now id x completed w h =
      Keeps-then I (Repo.create_refund request) _ w (Keeps-create_refund law request w refl h)
        (λ _ w' h'. Keeps-update_refund_status law x.id RefundStatus.pending now w' h')
    where
      request : RefundRequest
      request = refund_for x id "event_cancelled" (event_cancelled x.id)
  Keeps-refund_completed now id x initiated w h = h
  Keeps-refund_completed now id x pending w h = h
  Keeps-refund_completed now id x expired w h = h

  pub Keeps-refund_each :
      (now : ℕ) (draw : Uuid → Uuid) (xs : List Transaction) (w : World Tables)
      → I w.tables
      → Keeps I (refund_each now draw xs w)
  unfolding refund_each
  Keeps-refund_each now draw [] w h = h
  Keeps-refund_each now draw (x ∷ xs) w h =
      Keeps-then I (refund_completed now (draw x.id) x x.status) (λ _. refund_each now draw xs) w
        (Keeps-refund_completed now (draw x.id) x x.status w h)
        (λ _ w' h'. Keeps-refund_each now draw xs w' h')

  pub Keeps-cancel_if_open :
      (x : Transaction) (w : World Tables) → I w.tables → Keeps I (cancel_if_open x w)
  unfolding cancel_if_open cancel_session
  Keeps-cancel_if_open x w h = elim (Bool-cases (str_eq x.provider_ref "")) [
    | inl unopened ↦ rw unopened h
    | inr opened ↦ rw opened (law.voids _ w.tables h)
  ]

  pub Keeps-expire_one :
      (now : ℕ) (x : Transaction) (w : World Tables) → I w.tables → Keeps I (expire_one now x w)
  unfolding expire_one
  Keeps-expire_one now x w h =
      Keeps-then I (cancel_if_open x) _ w (Keeps-cancel_if_open x w h) λ _ w1 h1.
        Ensures-bind (Outcome (AfterMove I (Owing expired x.id)) I) (λ _. I) I
          (attempt (Repo.transition_if_active x.id expired x.provider_ref now)) (announce_if x now)
          w1
          (Ensures-attempt (AfterMove I (Owing expired x.id)) I I
            (Repo.transition_if_active x.id expired x.provider_ref now) w1
            (Moves-transition_if_active law expired x.provider_ref now x.id w1 h1))
          told
    where
      told :
          (r : Result Error Bool) (w' : World Tables)
          → Outcome (AfterMove I (Owing expired x.id)) I r w'.tables
          → Keeps I (announce_if x now r w')
      told (ok true) w' h' = Keeps-after_expired now "internal_expiry_fallback" x w' h'
      told (ok false) w' h' = h'
      told (err _) w' h' = h'
      told (db_err _) w' h' = h'

  pub Keeps-expire_each :
      (now : ℕ) (xs : List Transaction) (w : World Tables)
      → I w.tables
      → Keeps I (expire_each now xs w)
  unfolding expire_each
  Keeps-expire_each now [] w h = h
  Keeps-expire_each now (x ∷ xs) w h =
      Keeps-then I (expire_one now x) (λ _. expire_each now xs) w (Keeps-expire_one now x w h)
        (λ _ w' h'. Keeps-expire_each now xs w' h')
