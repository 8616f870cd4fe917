-- ===== src/Ticketing/EndpointTests.antt =====
-- A stored booking and an event of another organizer, on which the theorems about the endpoints are
-- applied.
use ticketbus.Base.{◌≡◌, none, some, [], ◌∷◌, true, false}
use ticketbus.Table.{find}
use ticketbus.Db.{World, calm}
use ticketbus.Dto.{EventStatus}
use ticketbus.Http.{Context, data_of}
use ticketbus.Ticketing.Domain.{booking_key, Tables, Event, BookingRow, ItemRow, pending}
use ticketbus.Ticketing.BookingHandlers.{get_booking}
use ticketbus.Ticketing.EventHandlers
use ticketbus.Ticketing.EventHandlers.{UpdateEventRequest}
use ticketbus.Ticketing.Endpoints.{for_owner, ShownToOwner, get_booking-ShownToOwner}

abbrev play : Event
play = record {
  id = 1;
  organizer_id = 50;
  title = "Play";
  description = "";
  venue_name = "Hall";
  venue_address = "Street 1";
  venue_capacity = 10;
  start_at = 1000;
  end_at = 2000;
  status = EventStatus.pending;
  reviewed_by = none;
  reviewed_at = none;
  created_at = 1;
  updated_at = 1;
}

abbrev seat : ItemRow
seat = record {
  id = 30;
  booking_id = 3;
  ticket_type_id = 7;
  quantity = 1;
  total_price_rupiah = 100;
}

abbrev bob : BookingRow
bob = record {
  id = 3;
  user_id = 40;
  event_id = 1;
  status = pending;
  expires_at = some 900;
  created_at = 10;
}

-- The connection breaks at the first item.
abbrev world : World Tables
world = record {
  tables = record {
    events = play ∷ [];
    ticket_types = [];
    bookings = bob ∷ [];
    booking_items = seat ∷ [];
    outbox = record { rows = []; next_id = 1 };
  };
  faults = false ∷ false ∷ true ∷ [];
}

abbrev caller : Context
caller = record { user_id = some 40; user_role = "customer"; user_email = "b@c" }

get_booking-ShownToOwner_example :
    ShownToOwner 3 caller world.tables (get_booking 3 caller world).0
    × ((get_booking 3 caller world).1.tables ≡ world.tables)
    × (data_of (get_booking 3 caller (calm world.tables)).0
        ≡ for_owner 3 caller world.tables (find booking_key 3 world.tables.bookings))
get_booking-ShownToOwner_example = get_booking-ShownToOwner 3 caller world

abbrev rewrite : UpdateEventRequest
rewrite = record { title = "Stolen"; description = ""; start_at = 1; end_at = 2 }
