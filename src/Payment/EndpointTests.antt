-- ===== src/Payment/EndpointTests.antt =====
-- A pending transaction, on which the theorems about the endpoints are applied.
use ticketbus.Base.{◌≡◌, refl, some, [], ◌∷◌, true, false}
use ticketbus.Table.{find}
use ticketbus.Db.{World, calm}
use ticketbus.Http.{Context, data_of}
use ticketbus.Payment.Domain.{txn_key, Tables, Transaction, RefundStatus, PaymentStatus}
use ticketbus.Payment.Webhook
use ticketbus.Payment.Webhook.{SessionWebhook, kind_of, mismatch, session_id}
use ticketbus.Payment.Handlers.{get_transaction, webhook}
use ticketbus.Payment.Endpoints.{
  for_owner, ShownToOwner, get_transaction-ShownToOwner, Acknowledged, webhook-Acknowledged,
}

abbrev open_order : Transaction
open_order = record {
  id = 90;
  user_id = 40;
  booking_id = 3;
  event_id = 1;
  amount_rupiah = 200;
  currency = "IDR";
  status = PaymentStatus.pending;
  provider = "mock";
  provider_ref = "ps-1";
  payment_link_url = "";
  customer_email = "a@b";
  refund_status = RefundStatus.none;
  expires_at = some 900;
  created_at = 10;
  updated_at = 10;
}

-- The third statement, the insertion of the message, fails.
abbrev world : World Tables
world = record {
  tables = record {
    transactions = open_order ∷ [];
    refund_requests = [];
    outbox = record { rows = []; next_id = 1 };
    voided = [];
  };
  faults = false ∷ false ∷ true ∷ [];
}

abbrev caller : Context
caller = record { user_id = some 40; user_role = "customer"; user_email = "a@b" }

get_transaction-ShownToOwner_example :
    ShownToOwner 90 caller world.tables (get_transaction 90 caller world).0
    × ((get_transaction 90 caller world).1.tables ≡ world.tables)
    × (data_of (get_transaction 90 caller (calm world.tables)).0
        ≡ for_owner 90 caller world.tables (find txn_key 90 world.tables.transactions))
get_transaction-ShownToOwner_example = get_transaction-ShownToOwner 90 caller world

abbrev env : Webhook.Env
env = record { now = 300; refund_id = 70 }

abbrev paid : SessionWebhook
paid = record {
  event = "payment_session.completed";
  reference_id = some 3;
  payment_session_id = "ps-1";
  id = "";
}

webhook-Acknowledged_example :
    Acknowledged env open_order world.tables (webhook env "t" "t" (some (some paid)) world)
unfolding find kind_of mismatch session_id
webhook-Acknowledged_example =
    webhook-Acknowledged env "t" paid 3 open_order world refl refl refl refl refl refl
