-- ===== src/Dto.antt =====
-- pkg/dto: the words that the services share, and the messages that they exchange. The Go constants
-- are strings; CHECK constraints of the schema keep every stored status among these.
use ticketbus.Base.{Bool, true, false, Uuid, ℕ, String}

pub data EventStatus : Type 0 where
  draft pending published rejected cancelled : EventStatus

abbrev pub event_status_eq : EventStatus → EventStatus → Bool
event_status_eq EventStatus.draft EventStatus.draft = true
event_status_eq EventStatus.pending EventStatus.pending = true
event_status_eq EventStatus.published EventStatus.published = true
event_status_eq EventStatus.rejected EventStatus.rejected = true
event_status_eq EventStatus.cancelled EventStatus.cancelled = true
event_status_eq _ _ = false

pub data Role : Type 0 where
  admin eo customer : Role

abbrev pub role_eq : Role → Role → Bool
role_eq admin admin = true
role_eq eo eo = true
role_eq customer customer = true
role_eq _ _ = false

pub record EventCancelled : Type 0 where
  pub event_id : Uuid
  pub at : ℕ

pub record PaymentCompleted : Type 0 where
  pub transaction_id : Uuid
  pub booking_id : Uuid
  pub event_id : Uuid
  pub user_id : Uuid
  pub at : ℕ

pub record PaymentExpired : Type 0 where
  pub transaction_id : Uuid
  pub booking_id : Uuid
  pub event_id : Uuid
  pub user_id : Uuid
  pub reason : String
  pub at : ℕ

pub record TicketIssued : Type 0 where
  pub ticket_id : Uuid
  pub booking_id : Uuid
  pub user_id : Uuid
  pub event_id : Uuid
  pub ticket_type_id : Uuid

-- The payloads that the services put on their topics: `event.cancelled`, `payment.completed`,
-- `payment.expired` and `ticket.issued`.
pub data Message : Type 0 where
  event_cancelled : EventCancelled → Message
  payment_completed : PaymentCompleted → Message
  payment_expired : PaymentExpired → Message
  ticket_issued : TicketIssued → Message
