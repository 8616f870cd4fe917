-- ===== src/Ticketing/EventHandlers.antt =====
-- service/ticketing/internal/handler/event_handler.go and dto.go. What JSON decodes to, what the
-- validator says, and the texts of database errors are arguments. `user` is the id that the gateway
-- names: a request without one does not pass the role of its route.
use ticketbus.Base.{ℕ, Uuid, String, Option, List, map, if◌then◌else◌, ◌==◌, int_gt}
use ticketbus.Text
use ticketbus.Db.{Result, ok, err, db_err, DbError}
use ticketbus.Dto.{EventStatus, admin}
use ticketbus.Http.{
  Response, success, created, bad_request, forbidden, not_found, internal_server_error, Endpoint,
  respond, checked, role_word,
}
use ticketbus.Ticketing.Domain.{
  Tables, Event, TicketType, Error, organizer_exists, organizer_not_found, event_not_found,
  event_not_editable, event_not_approvable, event_not_cancellable, event_not_cancelled,
  not_event_owner, invalid_status, ticket_types_empty, capacity_exceeded, no_seats_available,
  reservation_not_found, reservation_expired, booking_not_found, invalid_quantity, event_not_active,
  price_mismatch, payment_unavailable,
}
use ticketbus.Ticketing.EventRepo
use ticketbus.Ticketing.Events
use ticketbus.Ticketing.Events.{Env, Form}

pub record TicketTypeRequest : Type 0 where
  pub name : String
  pub price_rupiah : ℕ
  pub quantity : ℕ
  pub max_per_order : ℕ

pub record CreateEventRequest : Type 0 where
  pub title : String
  pub description : String
  pub venue_name : String
  pub venue_address : String
  pub venue_capacity : ℕ
  pub start_at : ℕ
  pub end_at : ℕ
  pub ticket_types : List TicketTypeRequest

pub record UpdateEventRequest : Type 0 where
  pub title : String
  pub description : String
  pub start_at : ℕ
  pub end_at : ℕ

pub record RejectRequest : Type 0 where
  pub reason : String

pub record EventResponse : Type 0 where
  pub id : Uuid
  pub organizer_id : Uuid
  pub title : String
  pub description : String
  pub venue_name : String
  pub venue_address : String
  pub venue_capacity : ℕ
  pub start_at : ℕ
  pub end_at : ℕ
  pub status : EventStatus
  pub created_at : ℕ
  pub updated_at : ℕ

pub record TicketTypeResponse : Type 0 where
  pub id : Uuid
  pub name : String
  pub price_rupiah : ℕ
  pub quantity : ℕ
  pub available : ℕ
  pub max_per_order : ℕ

-- `EventResponse`, `EventDetailResponse`, `EventListResponse`, a plain list, and the answer of
-- ReprocessCancellation.
pub data Body : Type 0 where
  event : EventResponse → Body
  detail : EventResponse → List TicketTypeResponse → Body
  listing : List EventResponse → ℕ → Body
  events : List EventResponse → Body
  queued : Uuid → EventStatus → Body

abbrev pub response_of : Event → EventResponse
response_of e = record {
  id = e.id;
  organizer_id = e.organizer_id;
  title = e.title;
  description = e.description;
  venue_name = e.venue_name;
  venue_address = e.venue_address;
  venue_capacity = e.venue_capacity;
  start_at = e.start_at;
  end_at = e.end_at;
  status = e.status;
  created_at = e.created_at;
  updated_at = e.updated_at;
}

abbrev pub type_response_of : TicketType → TicketTypeResponse
type_response_of x = record {
  id = x.id;
  name = x.name;
  price_rupiah = x.price_rupiah;
  quantity = x.quantity;
  available = x.available;
  max_per_order = x.max_per_order;
}

-- A type without a limit gets the limit 5; the service sets the ids and the free seats.
abbrev pub type_of : TicketTypeRequest → TicketType
type_of q = record {
  id = 0;
  event_id = 0;
  name = q.name;
  price_rupiah = q.price_rupiah;
  quantity = q.quantity;
  available = 0;
  max_per_order = if q.max_per_order == 0 then 5 else q.max_per_order;
}

abbrev pub form_of : Uuid → CreateEventRequest → Form
form_of user q = record {
  organizer_id = user;
  title = q.title;
  description = q.description;
  venue_name = q.venue_name;
  venue_address = q.venue_address;
  venue_capacity = q.venue_capacity;
  start_at = q.start_at;
  end_at = q.end_at;
}

-- The texts of the domain's errors. The mismatch of prices is written with its two numbers.
abbrev pub text_of : (ℕ → ℕ → String) → Error → String
text_of prices organizer_exists = "organizer already exists for this user"
text_of prices organizer_not_found = "organizer not found"
text_of prices event_not_found = "event not found"
text_of prices event_not_editable = "event is not in an editable state"
text_of prices event_not_approvable = "only pending events can be approved or rejected"
text_of prices event_not_cancellable = "only published events can be cancelled"
text_of prices event_not_cancelled = "only cancelled events can be reprocessed"
text_of prices not_event_owner = "you do not own this event"
text_of prices invalid_status = "invalid event status"
text_of prices ticket_types_empty = "at least one ticket type is required"
text_of prices capacity_exceeded = "total ticket quantity exceeds venue capacity"
text_of prices no_seats_available = "not enough seats available"
text_of prices reservation_not_found = "reservation not found or expired"
text_of prices reservation_expired = "reservation has expired"
text_of prices booking_not_found = "booking not found"
text_of prices invalid_quantity = "invalid quantity"
text_of prices event_not_active = "event is not active for reservations"
text_of prices payment_unavailable = "payment service unavailable"
text_of prices (price_mismatch real given) = prices real given

-- The error's own text is the answer's.
abbrev pub plain : String → String
plain e = e

abbrev pub limit_or_default : ℕ → ℕ
limit_or_default n = if int_gt n 0 then n else 20

module _ (prices : ℕ → ℕ → String) (db_text : DbError → String) where
  abbrev pub text : Error → String
  text e = text_of prices e

  abbrev pub event_created : Result Error Event → Response Body
  event_created (ok e) = created (event (response_of e))
  event_created (err capacity_exceeded) = bad_request (text capacity_exceeded)
  event_created (err ticket_types_empty) = bad_request (text ticket_types_empty)
  event_created (err _) = internal_server_error "failed to create event"
  event_created (db_err _) = internal_server_error "failed to create event"

  unfoldable pub create_event :
      Env
      → (CreateEventRequest → Option String)
      → Uuid
      → Option CreateEventRequest
      → Endpoint Tables Body
  create_event env validate user body = checked validate plain body λ q.
      respond (Events.create_event env (form_of user q) (map type_of q.ticket_types)) event_created

  abbrev pub event_updated : Result Error Event → Response Body
  event_updated (ok e) = success (event (response_of e))
  event_updated (err event_not_found) = not_found (text event_not_found)
  event_updated (err not_event_owner) = forbidden (text not_event_owner)
  event_updated (err event_not_editable) = forbidden (text event_not_editable)
  event_updated (err _) = internal_server_error "failed to update event"
  event_updated (db_err _) = internal_server_error "failed to update event"

  unfoldable pub update_event :
      ℕ
      → (UpdateEventRequest → Option String)
      → Uuid
      → Uuid
      → Option UpdateEventRequest
      → Endpoint Tables Body
  update_event now validate id user body = checked validate plain body λ q.
      respond (Events.update_event now id user q.title q.description q.start_at q.end_at)
        event_updated

  -- How ApproveEvent, RejectEvent and CancelEvent answer.
  abbrev pub event_moved : Result Error Event → Response Body
  event_moved (ok e) = success (event (response_of e))
  event_moved (err event_not_found) = not_found (text event_not_found)
  event_moved (err e) = bad_request (text e)
  event_moved (db_err e) = bad_request (db_text e)

  unfoldable pub approve_event : ℕ → Uuid → Uuid → Endpoint Tables Body
  approve_event now id user = respond (Events.approve_event now id user) event_moved

  unfoldable pub reject_event :
      ℕ
      → (RejectRequest → Option String)
      → Uuid
      → Uuid
      → Option RejectRequest
      → Endpoint Tables Body
  reject_event now validate id user body =
      checked validate plain body λ q. respond (Events.reject_event now id user) event_moved

  unfoldable pub cancel_event : ℕ → Uuid → Uuid → Endpoint Tables Body
  cancel_event now id user = respond (Events.cancel_event now id user) event_moved

  abbrev pub reprocessed : Result Error Event → Response Body
  reprocessed (ok e) = success (queued e.id e.status)
  reprocessed (err event_not_found) = not_found (text event_not_found)
  reprocessed (err e) = bad_request (text e)
  reprocessed (db_err e) = bad_request (db_text e)

  unfoldable pub reprocess_cancellation : ℕ → String → Uuid → Uuid → Endpoint Tables Body
  reprocess_cancellation now role id user =
      if Text.◌==◌ role (role_word admin)
      then respond (Events.reprocess_cancellation_as_admin now id) reprocessed
      else respond (Events.reprocess_cancellation now id user) reprocessed

  abbrev pub shown : Result Error (Event × List TicketType) → Response Body
  shown (ok (e, types)) = success (detail (response_of e) (map type_response_of types))
  shown (err e) = not_found (text e)
  shown (db_err e) = not_found (db_text e)

  unfoldable pub get_event : Uuid → Endpoint Tables Body
  get_event id = respond (Events.get_event id) shown

abbrev pub paged : String → Result Error (List Event × ℕ) → Response Body
paged failure (ok (es, total)) = success (listing (map response_of es) total)
paged failure (err _) = internal_server_error failure
paged failure (db_err _) = internal_server_error failure

-- The limit and the offset are what `strconv.Atoi` returns, patterns of an `int`.
unfoldable pub list_published : ℕ → ℕ → Endpoint Tables Body
list_published limit offset =
    respond (EventRepo.list_published (limit_or_default limit) offset)
      (paged "failed to list events")

unfoldable pub list_pending : ℕ → ℕ → Endpoint Tables Body
list_pending limit offset =
    respond (EventRepo.list_pending (limit_or_default limit) offset)
      (paged "failed to list pending events")

unfoldable pub list_all : Option EventStatus → ℕ → ℕ → Endpoint Tables Body
list_all status limit offset =
    respond (EventRepo.find_all status (limit_or_default limit) offset)
      (paged "failed to list events")

abbrev pub listed : Result Error (List Event) → Response Body
listed (ok es) = success (events (map response_of es))
listed (err _) = internal_server_error "failed to list events"
listed (db_err _) = internal_server_error "failed to list events"

unfoldable pub list_my_events : Uuid → Endpoint Tables Body
list_my_events user = respond (EventRepo.list_by_organizer user) listed
