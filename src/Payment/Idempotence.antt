-- ===== src/Payment/Idempotence.antt =====
-- Calls that come twice.
use ticketbus.Db.{calm, ok, exec, query_row}
use ticketbus.Payment.Webhook.{
  completes, expires, other, after_completed, after_expired, Kind, mismatch, kind_of, apply_unless,
  apply_webhook, SessionWebhook, handle_session_webhook,
}
use ticketbus.Base.{
  ℕ, ◌≡◌, refl, Bool, true, false, Uuid, String, some, is_some, Bool-cases, inl, inr, leb, int_half,
}
use ticketbus.Table.{find}
use ticketbus.Payment.Domain.{Tables, Transaction, completed, txn_key, booking_key}
use ticketbus.Payment.Repo
use ticketbus.Payment.Repo.{txn_row, txn_violation, insert_txn}
use ticketbus.Payment.Service
use ticketbus.Payment.Service.{new_txn, initiate_txn_for_booking}
use ticketbus.Payment.Webhook

-- Where no statement fails and the amount is not negative, a booking that has its transaction gets that
-- one again, and nothing is written.
pub initiate-again :
    (env : Service.Env) (booking event user : Uuid) (email : String) (amount expiry : ℕ)
    (x : Transaction) (t : Tables)
    → find booking_key booking t.transactions ≡ some x
    → leb int_half amount ≡ false
    → initiate_txn_for_booking env booking event user email amount expiry (calm t) ≡ (ok x, calm t)
unfolding initiate_txn_for_booking Repo.create exec insert_txn txn_violation new_txn
    Repo.find_by_booking_id query_row
initiate-again env booking event user email amount expiry x t there fits =
    elim (Bool-cases (is_some (find txn_key env.id t.transactions))) [
      | inl known ↦ rw (fits, known, there) refl
      | inr fresh ↦ rw (fits, fresh, there) existing
    ]
  where
    existing : Repo.find_by_booking_id booking (calm t) ≡ (ok x, calm t)
    existing = rw there refl

-- Where no statement fails, the gateway's webhook for a transaction that is completed, whatever it
-- tells, is acknowledged and changes nothing.
pub handle_session_webhook-again :
    (env : Webhook.Env) (p : SessionWebhook) (booking : Uuid) (x : Transaction) (t : Tables)
    → p.reference_id ≡ some booking
    → find booking_key booking t.transactions ≡ some x
    → find txn_key x.id t.transactions ≡ some x
    → x.status ≡ completed
    → handle_session_webhook env p (calm t) ≡ (ok tt, calm t)
unfolding handle_session_webhook Repo.find_by_booking_id query_row exec mismatch Webhook.session_id
    apply_webhook Repo.transition_if_active Repo.update_txn after_completed after_expired
    apply_unless find
handle_session_webhook-again env p booking x t refers there own paid =
    rw (refers, there) (skipped (mismatch p x))
  where
    applied : (k : Kind) → apply_webhook env k x (calm t) ≡ (ok tt, calm t)
    applied completes = rw (own, paid) refl
    applied expires = rw (own, paid) refl
    applied other = refl

    skipped : (skip : Bool) → apply_unless skip env (kind_of p.event) x (calm t) ≡ (ok tt, calm t)
    skipped true = refl
    skipped false = applied (kind_of p.event)
