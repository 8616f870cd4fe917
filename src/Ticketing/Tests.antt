-- ===== src/Ticketing/Tests.antt =====
-- Runs of the ticketing service's theorems on a small database.
use ticketbus.Db.{query_row, exec, calm, err, World, ok}
use ticketbus.Ticketing.Booking.Confirming.{confirm-issued}
use ticketbus.Ticketing.Booking.Transitions.{ticket_message, confirm, consume}
use ticketbus.Ticketing.BookingRepo.{assemble, with_status, items_of}
use ticketbus.Ticketing.Domain.{
  booking_key, confirmed, TicketType, capacity_exceeded, Tables, Event, TicketRow, BookingRow,
  ItemRow, BookingItem, pending, ticket_key,
}
use ticketbus.Outbox.{payloads}
use ticketbus.Table.{update, find}
use ticketbus.Base.{◌++◌, map, ⊤, ◌<◌, ℕ, ◌+◌, ◌≤◌, ◌≡◌, refl, Uuid, some, [], ◌∷◌, arith}
use ticketbus.Ticketing.Events
use ticketbus.Db.Ensures.{Ensures}
use ticketbus.Ticketing.Booking.Reserve.{calculate_total, reserve}
use ticketbus.Ticketing.Capacity.{seats_on_sale, create_event-seats}
use ticketbus.Ticketing.Lifecycle.Handlers.{Steps-Follows}
use ticketbus.Ticketing.Lifecycle.{Follows}
use ticketbus.Ticketing.EventCalls.{
  EventCall, cancels, goes_on, Service, loads, ends, Steps as CallSteps, here as at_start,
  next as step_on, idle,
}
use ticketbus.Ticketing.Events.{load_event}
use ticketbus.Ticketing.EventRepo
use ticketbus.Dto.{EventStatus, Message, payment_completed}
use ticketbus.Ticketing.Booking.Reserve
use ticketbus.Ticketing.Seats.{Sound, held_in}
use ticketbus.Ticketing.Seats.Handlers.{consume-Sound}
use ticketbus.Ticketing.Seats.Created.{reserve-Sound}

abbrev no_slack : Uuid → ℕ
no_slack k = 0

abbrev concert : Event
concert = record {
  id = 1;
  organizer_id = 50;
  title = "Concert";
  description = "";
  venue_name = "Hall";
  venue_address = "Street 1";
  venue_capacity = 10;
  start_at = 1000;
  end_at = 2000;
  status = EventStatus.published;
  reviewed_by = some 60;
  reviewed_at = some 5;
  created_at = 1;
  updated_at = 5;
}

abbrev regular : TicketRow
regular = record {
  id = 7;
  event_id = 1;
  name = "regular";
  price_rupiah = 100;
  quantity = 10;
  available_seat = 8;
  max_per_order = 4;
}

abbrev ann : BookingRow
ann = record {
  id = 3;
  user_id = 40;
  event_id = 1;
  status = pending;
  expires_at = some 900;
  created_at = 10;
}

abbrev two_seats : ItemRow
two_seats = record {
  id = 30;
  booking_id = 3;
  ticket_type_id = 7;
  quantity = 2;
  total_price_rupiah = 200;
}

abbrev sample : World Tables
sample = record {
  tables = record {
    events = concert ∷ [];
    ticket_types = regular ∷ [];
    bookings = ann ∷ [];
    booking_items = two_seats ∷ [];
    outbox = record { rows = []; next_id = 1 };
  };
  faults = [];
}

abbrev paid_ann : Message
paid_ann =
    payment_completed
      (record { transaction_id = 90; booking_id = 3; event_id = 1; user_id = 40; at = 20 })

abbrev wish : BookingItem
wish = record {
  id = 0;
  booking_id = 0;
  ticket_type_id = 7;
  quantity = 3;
  unit_price_rupiah = 100;
  total_price_rupiah = 0;
}

abbrev env : Reserve.Env
env = record {
  now = 50;
  reservation_ttl = 900;
  booking_id = 4;
  item_id = λ k. 31 + k;
  pay = λ _. ok tt;
}

sample-Sound : Sound no_slack sample.tables
unfolding find
sample-Sound = record { room = λ k r e. fits k r e; linked = (refl, tt) }
  where
    fits :
        (k : Uuid) (r : TicketRow)
        → find ticket_key k (regular ∷ []) ≡ some r
        → r.available_seat + held_in k sample.tables + 0 ≤ r.quantity
    fits k r e = ground arith

consume-Sound_example : Sound no_slack (consume paid_ann sample).1.tables
consume-Sound_example = consume-Sound no_slack paid_ann sample sample-Sound

reserve-Sound_example : Sound no_slack (reserve env 41 "a@b" 1 (wish ∷ []) sample).1.tables
reserve-Sound_example =
    reserve-Sound no_slack env 41 "a@b" 1 (wish ∷ []) sample (λ _. refl) sample-Sound

abbrev form : Events.Form
form = record {
  organizer_id = 50;
  title = "Play";
  description = "";
  venue_name = "Hall";
  venue_address = "Street 1";
  venue_capacity = 10;
  start_at = 1000;
  end_at = 2000;
}

abbrev stalls : TicketType
stalls = record {
  id = 0;
  event_id = 0;
  name = "stalls";
  price_rupiah = 50;
  quantity = 12;
  available = 0;
  max_per_order = 4;
}

abbrev events_env : Events.Env
events_env = record { now = 70; event_id = 2; ticket_id = λ k. 20 + k }

-- Two cancellations of the concert, which both load it before one of them goes on.
abbrev calling : EventCall
calling = cancels 90 1 50

abbrev first_read : Service
first_read = record {
  world = (load_event 1 sample).1;
  begun = record { call = calling; event = concert } ∷ [];
}

abbrev second_read : Service
second_read = record {
  world = (load_event 1 first_read.world).1;
  begun = record { call = calling; event = concert } ∷ first_read.begun;
}

abbrev once_off : Service
once_off = record {
  world = (goes_on calling concert second_read.world).1;
  begun = first_read.begun;
}

abbrev twice_off : Service
twice_off = record { world = (goes_on calling concert once_off.world).1; begun = [] }

overlapping : CallSteps (idle sample) twice_off
unfolding load_event EventRepo.find_event_by_id query_row exec find
overlapping =
    step_on
      (step_on
        (step_on (step_on at_start (loads (idle sample) calling concert refl))
          (loads first_read calling concert refl))
        (ends second_read [] first_read.begun (record { call = calling; event = concert }) refl))
      (ends once_off [] [] (record { call = calling; event = concert }) refl)

Steps-Follows_example : Follows sample.tables.events twice_off.world.tables
Steps-Follows_example = Steps-Follows sample twice_off overlapping

create_event-seats_example :
    (form.venue_capacity < seats_on_sale (stalls ∷ [])
      → Events.create_event events_env form (stalls ∷ []) sample ≡ (err capacity_exceeded, sample))
    × Ensures
        (λ _ _. seats_on_sale (stalls ∷ []) ≤ form.venue_capacity)
        (λ _. ⊤)
        (Events.create_event events_env form (stalls ∷ []) sample)
create_event-seats_example =
    create_event-seats events_env form stalls [] sample (omega arith) (omega arith)

confirm-issued_example :
    ((confirm 3 (calm sample.tables)).0 ≡ ok tt)
    × ((confirm 3 (calm sample.tables)).1.tables.bookings
        ≡ update booking_key 3 (with_status confirmed) sample.tables.bookings)
    × ((confirm 3 (calm sample.tables)).1.tables.ticket_types ≡ sample.tables.ticket_types)
    × (payloads (confirm 3 (calm sample.tables)).1.tables.outbox.rows
        ≡ payloads sample.tables.outbox.rows
          ++ map
              (ticket_message (assemble ann (items_of 3 sample.tables.booking_items)))
              (assemble ann (items_of 3 sample.tables.booking_items)).items)
unfolding find
confirm-issued_example = confirm-issued 3 ann concert sample.tables refl refl refl refl
