-- ===== src/Payment/Poller.antt =====
-- application/expiry.go: the fallback that expires overdue transactions.
use text.Mathlib.Text.{◌==◌ as str_eq}
use ticketbus.Base.{ℕ, Bool, true, false, List, [], ◌∷◌, ⊤, if◌then◌else◌}
use ticketbus.Db.{Result, ok, err, db_err, attempt, done, ◌>>=◌, ◌>>◌}
use ticketbus.Payment.Domain.{Transaction, expired, Payments, Error}
use ticketbus.Payment.Repo
use ticketbus.Payment.Service.{cancel_session}
use ticketbus.Payment.Webhook.{announce, expired_message}

-- A transaction with a session has it cancelled at the gateway; a failure there is only logged.
unfoldable pub cancel_if_open : Transaction → Payments ⊤
cancel_if_open x = if str_eq x.provider_ref "" then done else cancel_session x.provider_ref

-- A failed transition is logged, and one that was not applied is skipped.
abbrev pub announce_if : Transaction → ℕ → Result Error Bool → Payments ⊤
announce_if x now (ok true) = announce x (expired_message x "internal_expiry_fallback" now)
announce_if x now (ok false) = done
announce_if x now (err _) = done
announce_if x now (db_err _) = done

unfoldable pub expire_one : ℕ → Transaction → Payments ⊤
expire_one now x = do
  cancel_if_open x
  r ← attempt (Repo.transition_if_active x.id expired x.provider_ref now)
  announce_if x now r

unfoldable pub expire_each : ℕ → List Transaction → Payments ⊤
expire_each now [] = done
expire_each now (x ∷ xs) = do expire_one now x; expire_each now xs

unfoldable pub process_expired : ℕ → ℕ → Payments ⊤
process_expired now limit = do xs ← Repo.list_active_expired now limit; expire_each now xs
