-- ===== src/Payment/Tests.antt =====
-- Runs of the payment service's theorems on a small database.
use ticketbus.Base.{true, ◌≡◌, refl, ⊤, ◌+◌, some, List, [], ◌∷◌, arith}
use ticketbus.Payment.Domain.{late_payment, completed, Tables, Transaction, RefundStatus, initiated}
use ticketbus.Payment.Repo
use ticketbus.Payment.Repo.{has_key, newest_first, insert_newest}
use ticketbus.Payment.Webhook.{
  request_late_payment_refund, handle_event_cancelled, handle_session_webhook,
}
use ticketbus.Payment.Refunds.{
  request_late_payment_refund_lem, Refunded, handle_event_cancelled-Refunded,
}
use ticketbus.Db.{calm, ok, World, query_rows, query, exec, read_rows}
use ticketbus.Table.{find}
use ticketbus.Db.Ensures.{Ensures}
use ticketbus.Payment.Service.{
  session_request, process_payment, gateway_expiry, is_closing, minute, initiate_txn_for_booking,
}
use ticketbus.Payment.Idempotence.{initiate-again, handle_session_webhook-again}
use ticketbus.Payment.Access.{Opened, Payable, process_payment-Payable}
use ticketbus.Payment.Unique.{OnePerBooking, OnePerReason, run-OnePerBooking, run-OnePerReason}
use ticketbus.Payment.Settled.{Is, ended, agreed, run-ended, run-agreed}
use ticketbus.Payment.Service
use ticketbus.Payment.Webhook
use ticketbus.Payment.Calls.{Call, pays, webhooks, cancels, polls, run}
use ticketbus.Payment.Ledger.{Ledger, nothing, run-Ledger}

abbrev order : Transaction
order = record {
  id = 90;
  user_id = 40;
  booking_id = 3;
  event_id = 1;
  amount_rupiah = 200;
  currency = "IDR";
  status = initiated;
  provider = "mock";
  provider_ref = "";
  payment_link_url = "";
  customer_email = "a@b";
  refund_status = RefundStatus.none;
  expires_at = some 900000000000;
  created_at = 10;
  updated_at = 10;
}

abbrev sample : World Tables
sample = record {
  tables = record {
    transactions = order ∷ [];
    refund_requests = [];
    outbox = record { rows = []; next_id = 1 };
    voided = [];
  };
  faults = [];
}

abbrev env : Service.Env
env = record {
  now = 1000;
  id = 91;
  provider = "mock";
  gateway_expiry_buffer_min = 2;
  create_session = λ req. some (record {
    provider_ref = "ps-1";
    payment_link_url = "https://pay";
    expires_at = req.expires_at;
  });
}

abbrev completion : Webhook.SessionWebhook
completion = record {
  event = "payment_session.completed";
  reference_id = some 3;
  payment_session_id = "ps-1";
  id = "";
}

-- A payment, its webhook twice, the cancelled event, and the poller.
abbrev history : List Call
history =
    pays env 3 40
    ∷ webhooks (record { now = 2000; refund_id = 70 }) completion
    ∷ webhooks (record { now = 2001; refund_id = 71 }) completion
    ∷ cancels 3000 (λ id. 100 + id) 1
    ∷ polls 4000 10
    ∷ []

run-Ledger_example : Ledger nothing (run history sample).tables
run-Ledger_example = run-Ledger history sample λ s k ends. omega arith

abbrev settled : Transaction
settled = record order { status = completed; provider_ref = "ps-1" }

abbrev paid_sample : World Tables
paid_sample = record sample { tables = record (sample.tables) { transactions = settled ∷ [] } }

run-ended_example : Is (ended completed) 90 (run history paid_sample).tables
unfolding find
run-ended_example = run-ended completed 90 history paid_sample refl refl

run-agreed_example : Is (agreed 3 40 200) 90 (run history sample).tables
unfolding find
run-agreed_example = run-agreed 3 40 200 90 history sample refl

run-OnePerBooking_example : OnePerBooking (run history sample).tables
run-OnePerBooking_example = run-OnePerBooking history sample λ b. ground arith

run-OnePerReason_example : OnePerReason (run history sample).tables
run-OnePerReason_example = run-OnePerReason history sample ((λ k late. omega arith), tt)

handle_event_cancelled-Refunded_example :
    Ensures (λ _. Refunded 90) (λ _. ⊤) (handle_event_cancelled 3000 (λ id. 100 + id) 1 paid_sample)
unfolding find Repo.list_by_event_id query_rows query exec read_rows newest_first insert_newest
handle_event_cancelled-Refunded_example =
    handle_event_cancelled-Refunded 3000 (λ id. 100 + id) 1 90 settled paid_sample refl refl refl
      refl

process_payment-Payable_example :
    Ensures
      (λ p _. Payable env.now 3 40 p.0 sample.tables × Opened env p.0 p.1)
      (λ _. ⊤)
      (process_payment env 3 40 sample)
process_payment-Payable_example = process_payment-Payable env 3 40 sample

initiate-again_example :
    initiate_txn_for_booking env 3 1 40 "a@b" 500 900000000000 (calm sample.tables)
    ≡ (ok order, calm sample.tables)
unfolding find
initiate-again_example =
    initiate-again env 3 1 40 "a@b" 500 900000000000 order sample.tables refl refl

handle_session_webhook-again_example :
    handle_session_webhook
      (record { now = 2000; refund_id = 70 })
      completion
      (calm paid_sample.tables)
    ≡ (ok tt, calm paid_sample.tables)
unfolding find
handle_session_webhook-again_example =
    handle_session_webhook-again (record { now = 2000; refund_id = 70 }) completion 3 settled
      paid_sample.tables refl refl refl refl

abbrev refund_env : Webhook.Env
refund_env = record { now = 2000; refund_id = 70 }

request_late_payment_refund_lem_example :
    ((request_late_payment_refund refund_env settled (calm paid_sample.tables)).0 ≡ ok tt)
    × (has_key
          (late_payment 90)
          (request_late_payment_refund refund_env settled
            (calm paid_sample.tables)).1.tables.refund_requests
        ≡ true)
unfolding find
request_late_payment_refund_lem_example =
    request_late_payment_refund_lem refund_env settled paid_sample.tables refl refl
