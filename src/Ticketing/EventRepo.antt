-- ===== src/Ticketing/EventRepo.antt =====
-- service/ticketing/internal/postgres/event_repo.go: events and their ticket types.
use ticketbus.Base.{
  ℕ, zero, suc, Bool, true, not, ◌||◌, Uuid, Option, none, some, List, [], ◌∷◌, ◌++◌, ⊤, ltb, leb,
  ◌==◌, if◌then◌else◌, is_some, length, take, select, map, int_half, int32_half,
}
use ticketbus.Table.{find, update}
use ticketbus.Db.{
  Result, ok, err, db_err, write_unless, DbError, Statement, pure, exec, attempt, query, query_row,
  query_rows, reading, ◌>>=◌, ◌>>◌, done,
}
use ticketbus.Dto.{EventStatus, event_status_eq}
use ticketbus.Ticketing.Domain.{
  Tables, Event, TicketType, TicketRow, event_key, ticket_key, Ticketing, Error,
}

-- The row of a new event: the schema sets what the statement leaves out.
abbrev pub event_row : Event → ℕ → Event
event_row e now = record e {
  reviewed_by = none;
  reviewed_at = none;
  created_at = now;
  updated_at = now;
}

-- The primary key, and `venue_capacity >= 0` in a column of 32 bits.
unfoldable pub event_violation : Event → Tables → Option DbError
event_violation e t =
    if is_some (find event_key e.id t.events)
    then some DbError.unique_violation
    else if leb int32_half e.venue_capacity
    then some DbError.out_of_range
    else none

unfoldable pub insert_event : Event → ℕ → Statement Tables ⊤
insert_event e now t =
    write_unless (event_violation e t) (record t { events = t.events ++ event_row e now ∷ [] })

unfoldable pub create_event : Event → ℕ → Ticketing ⊤
create_event e now = exec (insert_event e now)

-- The columns that the statement sets; the venue and the organizer stay.
abbrev pub edited : Event → ℕ → Event → Event
edited e now row = record row {
  title = e.title;
  description = e.description;
  start_at = e.start_at;
  end_at = e.end_at;
  status = e.status;
  reviewed_by = e.reviewed_by;
  reviewed_at = e.reviewed_at;
  updated_at = now;
}

unfoldable pub edit_event : Event → ℕ → Statement Tables ⊤
edit_event e now t = ok (tt, record t { events = update event_key e.id (edited e now) t.events })

unfoldable pub update_event : Event → ℕ → Ticketing ⊤
update_event e now = exec (edit_event e now)

unfoldable pub find_event_by_id : Uuid → Ticketing Event
find_event_by_id id = query_row λ t. find event_key id t.events

-- An event as the list queries read it, without the columns of the review.
abbrev pub listed : Event → Event
listed e = record e { reviewed_by = none; reviewed_at = none }

unfoldable pub insert_sorted : (Event → Event → Bool) → Event → List Event → List Event
insert_sorted before e [] = e ∷ []
insert_sorted before e (x ∷ xs) = if before x e then x ∷ insert_sorted before e xs else e ∷ x ∷ xs

unfoldable pub sort_events : (Event → Event → Bool) → List Event → List Event
sort_events before [] = []
sort_events before (e ∷ es) = insert_sorted before e (sort_events before es)

abbrev pub skip : ℕ → List Event → List Event
skip zero es = es
skip (suc n) [] = []
skip (suc n) (e ∷ es) = skip n es

abbrev pub by_start : Event → Event → Bool
by_start a b = ltb a.start_at b.start_at

abbrev pub by_creation : Event → Event → Bool
by_creation a b = ltb a.created_at b.created_at

abbrev pub by_newest : Event → Event → Bool
by_newest a b = ltb b.created_at a.created_at

-- `ORDER BY … LIMIT $1 OFFSET $2`
abbrev pub page : (Event → Event → Bool) → (Event → Bool) → ℕ → ℕ → Tables → List Event
page before p limit offset t =
    map listed (take limit (skip offset (sort_events before (select p t.events))))

-- PostgreSQL refuses a negative `LIMIT` or `OFFSET`.
unfoldable pub read_page :
    (Event → Event → Bool) → (Event → Bool) → ℕ → ℕ → Statement Tables (List Event)
read_page before p limit offset t =
    if leb int_half limit || leb int_half offset
    then err DbError.out_of_range
    else ok (page before p limit offset t, t)

-- The error of the count is dropped, and leaves 0.
abbrev pub counted : Result Error ℕ → ℕ
counted (ok n) = n
counted (err _) = 0
counted (db_err _) = 0

unfoldable pub list_where :
    (Event → Event → Bool) → (Event → Bool) → ℕ → ℕ → Ticketing (List Event × ℕ)
list_where before p limit offset = do
  total ← attempt (query (λ t. length (select p t.events)))
  page ← exec (read_page before p limit offset)
  es ← reading page
  pure (es, counted total)

abbrev pub has_status : EventStatus → Event → Bool
has_status s e = event_status_eq e.status s

unfoldable pub list_published : ℕ → ℕ → Ticketing (List Event × ℕ)
list_published = list_where by_start (has_status EventStatus.published)

unfoldable pub list_pending : ℕ → ℕ → Ticketing (List Event × ℕ)
list_pending = list_where by_creation (has_status EventStatus.pending)

-- `$1 = '' OR status = $1`
abbrev pub status_or_all : Option EventStatus → Event → Bool
status_or_all none e = true
status_or_all (some s) e = has_status s e

unfoldable pub find_all : Option EventStatus → ℕ → ℕ → Ticketing (List Event × ℕ)
find_all s = list_where by_newest (status_or_all s)

unfoldable pub list_by_organizer : Uuid → Ticketing (List Event)
list_by_organizer id =
    query_rows λ t.
      map listed (sort_events by_newest (select (λ (e : Event). e.organizer_id == id) t.events))

-- A new ticket type has no seats on offer: `available_seat` is 0 by default.
abbrev pub ticket_row : TicketType → TicketRow
ticket_row x = record {
  id = x.id;
  event_id = x.event_id;
  name = x.name;
  price_rupiah = x.price_rupiah;
  quantity = x.quantity;
  available_seat = 0;
  max_per_order = x.max_per_order;
}

-- The primary key, the reference to the event, the CHECKs of price, quantity and order size, and the
-- 32 bits of the last two.
unfoldable pub ticket_violation : TicketType → Tables → Option DbError
ticket_violation x t =
    if is_some (find ticket_key x.id t.ticket_types)
    then some DbError.unique_violation
    else if not (is_some (find event_key x.event_id t.events))
    then some DbError.foreign_key_violation
    else if leb int_half x.price_rupiah || x.quantity == 0 || x.max_per_order == 0
    then some DbError.check_violation
    else if leb int32_half x.quantity || leb int32_half x.max_per_order
    then some DbError.out_of_range
    else none

unfoldable pub insert_ticket : TicketType → Statement Tables ⊤
insert_ticket x t =
    write_unless (ticket_violation x t)
      (record t { ticket_types = t.ticket_types ++ ticket_row x ∷ [] })

unfoldable pub create_ticket_types : List TicketType → Ticketing ⊤
create_ticket_types [] = done
create_ticket_types (x ∷ xs) = do exec (insert_ticket x); create_ticket_types xs

abbrev pub scan_ticket : TicketRow → TicketType
scan_ticket r = record {
  id = r.id;
  event_id = r.event_id;
  name = r.name;
  price_rupiah = r.price_rupiah;
  quantity = r.quantity;
  available = 0;
  max_per_order = r.max_per_order;
}

unfoldable pub list_ticket_types_by_event : Uuid → Ticketing (List TicketType)
list_ticket_types_by_event id =
    query_rows λ t. map scan_ticket (select (λ (r : TicketRow). r.event_id == id) t.ticket_types)
