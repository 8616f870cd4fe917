-- ===== src/Ticketing/Consumer.antt =====
-- internal/kafka/ticketing_consumer.go: the topics that the service reads, and what it does to a
-- message of each. `json.Unmarshal` is outside the program.
use ticketbus.Base.{⊤, Option, none, some}
use ticketbus.Db.{Action, Result, ok, err, db_err, raise}
use ticketbus.Dto.{
  PaymentCompleted, PaymentExpired, EventCancelled, Message, payment_completed, payment_expired,
  event_cancelled,
}
use ticketbus.Kafka.Consumer.{Handler}
use ticketbus.Ticketing.Domain.{Tables, Error, Ticketing}
use ticketbus.Ticketing.Booking.Transitions.{consume}

pub data Topic : Type 0 where
  completed_topic expired_topic cancelled_topic : Topic

pub record Decoder (V : Type 0) : Type 0 where
  pub to_completed : V → Option PaymentCompleted
  pub to_expired : V → Option PaymentExpired
  pub to_cancelled : V → Option EventCancelled

-- The error of `json.Unmarshal`, or that of the service.
pub data ConsumeError : Type 0 where
  unreadable : ConsumeError
  of_service : Error → ConsumeError

abbrev pub with_service : Result Error ⊤ → Result ConsumeError ⊤
with_service (ok x) = ok x
with_service (err e) = err (of_service e)
with_service (db_err e) = db_err e

abbrev pub returned : Ticketing ⊤ → Action Tables ConsumeError ⊤
returned f w = let (r, w') = f w in (with_service r, w')

abbrev pub if_read : {A : Type 0} → (A → Message) → Option A → Action Tables ConsumeError ⊤
if_read wrap none = raise unreadable
if_read wrap (some x) = returned (consume (wrap x))

-- The handler that `Start` gives to the consumer of a topic.
unfoldable pub on_message : {V : Type 0} → Decoder V → Topic → Handler V Tables ConsumeError
on_message d completed_topic m = if_read payment_completed (d.to_completed m.value)
on_message d expired_topic m = if_read payment_expired (d.to_expired m.value)
on_message d cancelled_topic m = if_read event_cancelled (d.to_cancelled m.value)
