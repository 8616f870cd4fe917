-- ===== src/Ticketing/Booking/Transitions.antt =====
-- booking/transitions_service.go and consumers_service.go: what payment and event messages do to
-- bookings.
use mathlib.Core.Option
use ticketbus.Base.{
  Bool, true, false, ◌||◌, Uuid, Option, none, some, List, [], ◌∷◌, ⊤, if◌then◌else◌,
}
use ticketbus.Table.{find}
use ticketbus.Db.{
  Result, ok, err, db_err, DbError, pure, raise, raise_db, attempt, ignore, done, exec, query_row,
  ◌>>=◌, ◌>>◌,
}
use ticketbus.Dto.{
  EventStatus, event_status_eq, Message, ticket_issued, payment_completed, payment_expired,
  event_cancelled,
}
use ticketbus.Outbox.{of_ticket, insert_row}
use ticketbus.Ticketing.Domain.{
  Tables, Booking, BookingItem, BookingStatus, pending, confirmed, expired, cancelled, status_eq,
  event_key, Ticketing, Error,
}
use ticketbus.Ticketing.BookingRepo.{
  find_by_id, list_by_event_id, transition_and_release_seats, update_status_if_pending,
}

-- A load error reads as "no such booking", and a settled booking is skipped.
abbrev pub if_pending : Result Error Booking → Ticketing (Option Booking)
if_pending (ok b) = pure (if status_eq b.status pending then some b else none)
if_pending (err _) = pure none
if_pending (db_err _) = pure none

unfoldable pub load_pending_booking : Uuid → Ticketing (Option Booking)
load_pending_booking id = do r ← attempt (find_by_id id); if_pending r

unfoldable pub event_status : Uuid → Tables → Option EventStatus
event_status id t = Option.map (λ e. e.status) (find event_key id t.events)

-- `EventStatusRepo.IsPublished`: an unknown event is not published.
abbrev pub published_or_error : Result Error EventStatus → Ticketing Bool
published_or_error (ok s) = pure (event_status_eq s EventStatus.published)
published_or_error (err e) = raise e
published_or_error (db_err DbError.no_rows) = pure false
published_or_error (db_err e) = raise_db e

unfoldable pub is_published : Uuid → Ticketing Bool
is_published id = do r ← attempt (query_row (event_status id)); published_or_error r

abbrev pub ticket_message : Booking → BookingItem → Message
ticket_message b i = ticket_issued (record {
  ticket_id = i.id;
  booking_id = b.id;
  user_id = b.user_id;
  event_id = b.event_id;
  ticket_type_id = i.ticket_type_id;
})

unfoldable pub issue_tickets : Booking → List BookingItem → Ticketing ⊤
issue_tickets b [] = done
issue_tickets b (i ∷ is) = do
  ignore (
      exec (λ t.
        ok (
          tt,
          record t { outbox = insert_row (of_ticket b.id i.id) (ticket_message b i) t.outbox },
        )))
  issue_tickets b is

unfoldable pub issue_if : Bool → Booking → Ticketing ⊤
issue_if true b = issue_tickets b b.items
issue_if false b = done

-- `Confirm` once the event's state is known.
unfoldable pub confirm_if : Bool → Booking → Ticketing ⊤
confirm_if false b = do transition_and_release_seats b cancelled; done
confirm_if true b = do applied ← update_status_if_pending b.id confirmed; issue_if applied b

unfoldable pub confirm_loaded : Option Booking → Ticketing ⊤
confirm_loaded none = done
confirm_loaded (some b) = do published ← is_published b.event_id; confirm_if published b

unfoldable pub confirm : Uuid → Ticketing ⊤
confirm id = do b ← load_pending_booking id; confirm_loaded b

unfoldable pub release_loaded : Option Booking → BookingStatus → Ticketing ⊤
release_loaded none to = done
release_loaded (some b) to = do transition_and_release_seats b to; done

unfoldable pub release_reservation : Uuid → BookingStatus → Ticketing ⊤
release_reservation id to = do b ← load_pending_booking id; release_loaded b to

unfoldable pub expire_on_payment_expired : Uuid → Ticketing ⊤
unfolding release_reservation
expire_on_payment_expired id = release_reservation id expired

-- One round of the loop: a booking that is neither confirmed nor pending is skipped.
unfoldable pub cancel_one : Bool → Booking → Ticketing ⊤
cancel_one false b = done
cancel_one true b = do transition_and_release_seats b cancelled; done

unfoldable pub cancel_each : List Booking → Ticketing ⊤
cancel_each [] = done
cancel_each (b ∷ bs) = do
  cancel_one (status_eq b.status confirmed || status_eq b.status pending) b
  cancel_each bs

unfoldable pub cancel_bookings : Uuid → Ticketing ⊤
cancel_bookings event = do bs ← list_by_event_id event; cancel_each bs

-- The handlers that `StartConsumers` registers; the payments name their booking, the cancellation
-- its event. Other messages are not on the topics that this service reads.
unfoldable pub consume : Message → Ticketing ⊤
consume (payment_completed m) = confirm m.booking_id
consume (payment_expired m) = expire_on_payment_expired m.booking_id
consume (event_cancelled m) = cancel_bookings m.event_id
consume (ticket_issued m) = done
