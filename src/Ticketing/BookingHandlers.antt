-- ===== src/Ticketing/BookingHandlers.antt =====
-- service/ticketing/internal/handler/booking_handler.go and booking_dto.go. Times are answered as
-- they are; their format is left out.
use ticketbus.Base.{ℕ, Uuid, String, Option, List, map, if◌then◌else◌}
use ticketbus.Db.{Result, ok, err, db_err}
use ticketbus.Http.{
  is_user, if_known, Response, failed, success, created, bad_request, not_found,
  internal_server_error, Context, Endpoint, answer, respond, checked,
}
use ticketbus.Ticketing.Domain.{
  Tables, Booking, BookingItem, BookingStatus, Reservation, Error, no_seats_available,
  price_mismatch, payment_unavailable,
}
use ticketbus.Ticketing.BookingRepo
use ticketbus.Ticketing.EventHandlers.{plain}
use ticketbus.Ticketing.Booking.Reserve
use ticketbus.Ticketing.Booking.Reserve.{Env}

pub record ReserveItemRequest : Type 0 where
  pub ticket_type_id : Uuid
  pub quantity : ℕ
  pub unit_price_rupiah : ℕ

pub record ReserveRequest : Type 0 where
  pub event_id : Uuid
  pub items : List ReserveItemRequest

pub record ReservationResponse : Type 0 where
  pub booking_id : Uuid
  pub event_id : Uuid
  pub total_rupiah : ℕ
  pub status : BookingStatus
  pub expires_at : ℕ

pub record BookingItemResp : Type 0 where
  pub id : Uuid
  pub ticket_type_id : Uuid
  pub quantity : ℕ
  pub unit_price_rupiah : ℕ
  pub total_price_rupiah : ℕ

pub record BookingResponse : Type 0 where
  pub id : Uuid
  pub user_id : Uuid
  pub event_id : Uuid
  pub status : BookingStatus
  pub expires_at : Option ℕ
  pub total_rupiah : ℕ
  pub items : List BookingItemResp
  pub created_at : ℕ

pub data Body : Type 0 where
  reserved : ReservationResponse → Body
  booking : BookingResponse → Body
  bookings : List BookingResponse → Body

abbrev pub item_response_of : BookingItem → BookingItemResp
item_response_of i = record {
  id = i.id;
  ticket_type_id = i.ticket_type_id;
  quantity = i.quantity;
  unit_price_rupiah = i.unit_price_rupiah;
  total_price_rupiah = i.total_price_rupiah;
}

abbrev pub booking_to_response : Booking → BookingResponse
booking_to_response b = record {
  id = b.id;
  user_id = b.user_id;
  event_id = b.event_id;
  status = b.status;
  expires_at = b.expires_at;
  total_rupiah = b.total_rupiah;
  items = map item_response_of b.items;
  created_at = b.created_at;
}

-- The fields that the request does not give are empty until the service sets them.
abbrev pub item_of : ReserveItemRequest → BookingItem
item_of q = record {
  id = 0;
  booking_id = 0;
  ticket_type_id = q.ticket_type_id;
  quantity = q.quantity;
  unit_price_rupiah = q.unit_price_rupiah;
  total_price_rupiah = 0;
}

abbrev pub reservation_of : (ℕ → ℕ → String) → Result Error Reservation → Response Body
reservation_of prices (ok r) = created (
    reserved (record {
      booking_id = r.booking_id;
      event_id = r.event_id;
      total_rupiah = r.total_rupiah;
      status = r.status;
      expires_at = r.expires_at;
    }))
reservation_of prices (err no_seats_available) = failed 409 "not enough seats available"
reservation_of prices (err (price_mismatch real given)) = bad_request (prices real given)
reservation_of prices (err payment_unavailable) =
    failed 502 "payment service unavailable, please retry"
reservation_of prices (err _) = internal_server_error "reservation failed"
reservation_of prices (db_err _) = internal_server_error "reservation failed"

unfoldable pub reserve :
    Env
    → (ℕ → ℕ → String)
    → (ReserveRequest → Option String)
    → Context
    → Option ReserveRequest
    → Endpoint Tables Body
reserve env prices validate c body = checked validate plain body λ q. if_known c.user_id λ user.
    respond (Reserve.reserve env user c.user_email q.event_id (map item_of q.items))
      (reservation_of prices)

abbrev pub release : Endpoint Tables Body
release = answer (
    failed 409
      "reservation cannot be cancelled; seats are released automatically when the payment expires")

abbrev pub own_booking : Option Uuid → Result Error Booking → Response Body
own_booking user (ok b) =
    if is_user user b.user_id
    then success (booking (booking_to_response b))
    else not_found "booking not found"
own_booking user (err _) = not_found "booking not found"
own_booking user (db_err _) = not_found "booking not found"

unfoldable pub get_booking : Uuid → Context → Endpoint Tables Body
get_booking id c = respond (BookingRepo.find_by_id id) (own_booking c.user_id)

abbrev pub my_bookings : Result Error (List Booking) → Response Body
my_bookings (ok bs) = success (bookings (map booking_to_response bs))
my_bookings (err _) = internal_server_error "failed to list bookings"
my_bookings (db_err _) = internal_server_error "failed to list bookings"

unfoldable pub list_my_bookings : Context → Endpoint Tables Body
list_my_bookings c = if_known c.user_id λ user. respond (BookingRepo.list_by_user user) my_bookings
