-- ===== src/Ticketing/Domain.antt =====
-- service/ticketing/internal/domain, and the tables of migrations/ticketing. Times are nanoseconds.
use ticketbus.Base.{ℕ, Bool, true, false, Uuid, String, Option, List}
use ticketbus.Db.{Action}
use ticketbus.Dto.{EventStatus}
use ticketbus.Outbox.{Outbox}

-- `ErrPriceMismatch` carries the two prices that its message shows. The code raises neither the
-- errors of organizers nor `ErrInvalidStatus`, `ErrReservationExpired`, `ErrBookingNotFound` and
-- `ErrEventNotActive`.
pub data Error : Type 0 where
  organizer_exists organizer_not_found event_not_found event_not_editable : Error
  event_not_approvable event_not_cancellable event_not_cancelled not_event_owner : Error
  invalid_status ticket_types_empty capacity_exceeded no_seats_available : Error
  reservation_not_found reservation_expired booking_not_found invalid_quantity : Error
  event_not_active payment_unavailable : Error
  price_mismatch : ℕ → ℕ → Error

pub record Event : Type 0 where
  pub id : Uuid
  pub organizer_id : Uuid
  pub title : String
  pub description : String
  pub venue_name : String
  pub venue_address : String
  pub venue_capacity : ℕ
  pub start_at : ℕ
  pub end_at : ℕ
  pub status : EventStatus
  pub reviewed_by : Option Uuid
  pub reviewed_at : Option ℕ
  pub created_at : ℕ
  pub updated_at : ℕ

pub record TicketType : Type 0 where
  pub id : Uuid
  pub event_id : Uuid
  pub name : String
  pub price_rupiah : ℕ
  pub quantity : ℕ
  pub available : ℕ
  pub max_per_order : ℕ

pub data BookingStatus : Type 0 where
  pending confirmed expired cancelled : BookingStatus

abbrev pub status_eq : BookingStatus → BookingStatus → Bool
status_eq pending pending = true
status_eq confirmed confirmed = true
status_eq expired expired = true
status_eq cancelled cancelled = true
status_eq _ _ = false

pub record BookingItem : Type 0 where
  pub id : Uuid
  pub booking_id : Uuid
  pub ticket_type_id : Uuid
  pub quantity : ℕ
  pub unit_price_rupiah : ℕ
  pub total_price_rupiah : ℕ

-- `PaymentID` and `RefundStatus` are never set by the code, and are left out.
pub record Booking : Type 0 where
  pub id : Uuid
  pub user_id : Uuid
  pub event_id : Uuid
  pub status : BookingStatus
  pub expires_at : Option ℕ
  pub total_rupiah : ℕ
  pub items : List BookingItem
  pub created_at : ℕ

pub record Reservation : Type 0 where
  pub booking_id : Uuid
  pub user_id : Uuid
  pub event_id : Uuid
  pub items : List BookingItem
  pub total_rupiah : ℕ
  pub status : BookingStatus
  pub expires_at : ℕ
  pub created_at : ℕ

-- Rows of `ticket_types`, `bookings` and `booking_items`.
pub record TicketRow : Type 0 where
  pub id : Uuid
  pub event_id : Uuid
  pub name : String
  pub price_rupiah : ℕ
  pub quantity : ℕ
  pub available_seat : ℕ
  pub max_per_order : ℕ

pub record BookingRow : Type 0 where
  pub id : Uuid
  pub user_id : Uuid
  pub event_id : Uuid
  pub status : BookingStatus
  pub expires_at : Option ℕ
  pub created_at : ℕ

pub record ItemRow : Type 0 where
  pub id : Uuid
  pub booking_id : Uuid
  pub ticket_type_id : Uuid
  pub quantity : ℕ
  pub total_price_rupiah : ℕ

pub record Tables : Type 0 where
  pub events : List Event
  pub ticket_types : List TicketRow
  pub bookings : List BookingRow
  pub booking_items : List ItemRow
  pub outbox : Outbox

abbrev pub event_key : Event → ℕ
event_key e = e.id

abbrev pub ticket_key : TicketRow → ℕ
ticket_key r = r.id

abbrev pub booking_key : BookingRow → ℕ
booking_key r = r.id

abbrev pub item_key : ItemRow → ℕ
item_key r = r.id

-- What a method of the service does.
abbrev pub Ticketing : Type 0 → Type 0
Ticketing A = Action Tables Error A
