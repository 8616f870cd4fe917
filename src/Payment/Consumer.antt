-- ===== src/Payment/Consumer.antt =====
-- internal/kafka/consumer.go: what the payment service does to a message of `event.cancelled`.
-- `json.Unmarshal` is outside the program. The clock and the ids of a message's refunds are drawn
-- when its handler runs.
use ticketbus.Base.{ℕ, Uuid, ⊤, Option, none, some}
use ticketbus.Db.{Action, Result, ok, err, db_err, raise}
use ticketbus.Dto.{EventCancelled}
use ticketbus.Kafka.Consumer.{Message, Handler}
use ticketbus.Payment.Domain.{Tables, Error, Payments}
use ticketbus.Payment.Webhook.{handle_event_cancelled}

-- The error of `json.Unmarshal`, or that of the service.
pub data ConsumeError : Type 0 where
  unreadable : ConsumeError
  of_service : Error → ConsumeError

abbrev pub with_service : Result Error ⊤ → Result ConsumeError ⊤
with_service (ok x) = ok x
with_service (err e) = err (of_service e)
with_service (db_err e) = db_err e

abbrev pub returned : Payments ⊤ → Action Tables ConsumeError ⊤
returned f w = let (r, w') = f w in (with_service r, w')

abbrev pub if_read : ℕ → (Uuid → Uuid) → Option EventCancelled → Action Tables ConsumeError ⊤
if_read now draw none = raise unreadable
if_read now draw (some x) = returned (handle_event_cancelled now draw x.event_id)

-- The handler that `Start` gives to the consumer.
unfoldable pub on_event_cancelled :
    {V : Type 0}
    → (V → Option EventCancelled)
    → (Message V → ℕ)
    → (Message V → Uuid → Uuid)
    → Handler V Tables ConsumeError
on_event_cancelled decode now draw m = if_read (now m) (draw m) (decode m.value)
