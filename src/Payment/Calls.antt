-- ===== src/Payment/Calls.antt =====
-- What reaches the payment service: its HTTP and Kafka handlers, and the ticks of its poller, as calls
-- that a history is made of. A call that fails keeps what it had already written.
use ticketbus.Base.{ℕ, Uuid, String, List, [], ◌∷◌, ⊤}
use ticketbus.Db.{World, done, ◌>>◌}
use ticketbus.Payment.Domain.{Tables, Payments}
use ticketbus.Payment.Service
use ticketbus.Payment.Service.{initiate_txn_for_booking, process_payment}
use ticketbus.Payment.Webhook
use ticketbus.Payment.Webhook.{SessionWebhook, handle_session_webhook, handle_event_cancelled}
use ticketbus.Payment.Poller.{process_expired}

pub data Call : Type 0 where
  initiates : Service.Env → Uuid → Uuid → Uuid → String → ℕ → ℕ → Call
  pays : Service.Env → Uuid → Uuid → Call
  webhooks : Webhook.Env → SessionWebhook → Call
  cancels : ℕ → (Uuid → Uuid) → Uuid → Call
  polls : ℕ → ℕ → Call

unfoldable pub handle : Call → Payments ⊤
handle (initiates env booking event user email amount expires) = do
  initiate_txn_for_booking env booking event user email amount expires
  done
handle (pays env booking user) = do process_payment env booking user; done
handle (webhooks env p) = handle_session_webhook env p
handle (cancels now draw event) = handle_event_cancelled now draw event
handle (polls now limit) = process_expired now limit

unfoldable pub run : List Call → World Tables → World Tables
run [] w = w
run (c ∷ cs) w = run cs (handle c w).1
