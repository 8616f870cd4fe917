-- ===== src/Ticketing/Events.antt =====
-- service/ticketing/internal/application/event: the life of an event.
use ticketbus.Base.{
  ℕ, ◌+◌, ◌%◌, Bool, true, false, not, ◌&&◌, ◌||◌, Uuid, String, none, some, List, [], ◌∷◌, ⊤, ◌==◌,
  int_mod, int_gt,
}
use ticketbus.Db.{
  Result, ok, err, db_err, pure, raise, raise_if, attempt, ignore, exec, done, ◌>>=◌, ◌>>◌,
}
use ticketbus.Dto.{EventStatus, event_status_eq, Message, event_cancelled}
use ticketbus.Outbox.{of_row, insert_row}
use ticketbus.Ticketing.Domain.{
  Event, TicketType, Ticketing, Error, event_not_found, event_not_editable, event_not_approvable,
  event_not_cancellable, event_not_cancelled, not_event_owner, ticket_types_empty,
  capacity_exceeded,
}
use ticketbus.Ticketing.EventRepo
use ticketbus.Ticketing.SeatCounter

-- The clock, and the ids for a new event and its ticket types.
pub record Env : Type 0 where
  pub now : ℕ
  pub event_id : Uuid
  pub ticket_id : ℕ → Uuid

-- What the organizer writes about an event.
pub record Form : Type 0 where
  pub organizer_id : Uuid
  pub title : String
  pub description : String
  pub venue_name : String
  pub venue_address : String
  pub venue_capacity : ℕ
  pub start_at : ℕ
  pub end_at : ℕ

-- The sum of the quantities, in the arithmetic of Go's `int`.
unfoldable pub quantity_from : ℕ → List TicketType → ℕ
quantity_from acc [] = acc
quantity_from acc (x ∷ xs) = quantity_from ((acc + x.quantity) % int_mod) xs

unfoldable pub total_quantity : List TicketType → ℕ
total_quantity xs = quantity_from 0 xs

abbrev pub no_types : List TicketType → Bool
no_types [] = true
no_types (_ ∷ _) = false

abbrev pub new_event : Env → Form → Event
new_event env f = record {
  id = env.event_id;
  organizer_id = f.organizer_id;
  title = f.title;
  description = f.description;
  venue_name = f.venue_name;
  venue_address = f.venue_address;
  venue_capacity = f.venue_capacity;
  start_at = f.start_at;
  end_at = f.end_at;
  status = EventStatus.pending;
  reviewed_by = none;
  reviewed_at = none;
  created_at = 0;
  updated_at = 0;
}

-- The ids that the service writes into the ticket types.
unfoldable pub number_types : Env → ℕ → List TicketType → List TicketType
number_types env k [] = []
number_types env k (x ∷ xs) =
    record x { id = env.ticket_id k; event_id = env.event_id } ∷ number_types env (k + 1) xs

-- `CreateEvent` after its checks.
unfoldable pub store_event : Env → Event → List TicketType → Ticketing Event
store_event env e types = do
  EventRepo.create_event e env.now
  EventRepo.create_ticket_types (number_types env 0 types)
  pure e

unfoldable pub create_event : Env → Form → List TicketType → Ticketing Event
create_event env f types = do
  raise_if (no_types types) ticket_types_empty
  raise_if (int_gt (total_quantity types) f.venue_capacity) capacity_exceeded
  store_event env (new_event env f) types

-- Every error of the lookup reads as `ErrEventNotFound`.
abbrev pub event_or_not_found : Result Error Event → Ticketing Event
event_or_not_found (ok e) = pure e
event_or_not_found (err _) = raise event_not_found
event_or_not_found (db_err _) = raise event_not_found

unfoldable pub load_event : Uuid → Ticketing Event
load_event id = do r ← attempt (EventRepo.find_event_by_id id); event_or_not_found r

abbrev pub is_editable : EventStatus → Bool
is_editable s = event_status_eq s EventStatus.draft || event_status_eq s EventStatus.pending

abbrev pub rewritten : String → String → ℕ → ℕ → ℕ → Event → Event
rewritten title description start_at end_at now e = record e {
  title = title;
  description = description;
  start_at = start_at;
  end_at = end_at;
  updated_at = now;
}

-- `s.repo.UpdateEvent(…)`, and the event that the method returns.
unfoldable pub saved : ℕ → Event → Ticketing Event
saved now e = do EventRepo.update_event e now; pure e

unfoldable pub update_loaded : ℕ → Uuid → String → String → ℕ → ℕ → Event → Ticketing Event
update_loaded now organizer title description start_at end_at e = do
  raise_if (not (e.organizer_id == organizer)) not_event_owner
  raise_if (not (is_editable e.status)) event_not_editable
  saved now (rewritten title description start_at end_at now e)

unfoldable pub update_event : ℕ → Uuid → Uuid → String → String → ℕ → ℕ → Ticketing Event
update_event now id organizer title description start_at end_at = do
  e ← load_event id
  update_loaded now organizer title description start_at end_at e

abbrev pub reviewed : EventStatus → Uuid → ℕ → Event → Event
reviewed s admin_id now e = record e {
  status = s;
  reviewed_by = some admin_id;
  reviewed_at = some now;
  updated_at = now;
}

-- The loop over the ticket types of an approved event.
unfoldable pub open_seats : List TicketType → Ticketing ⊤
open_seats [] = done
open_seats (x ∷ xs) = do
  SeatCounter.init x.id x.quantity
  SeatCounter.set_price x.id x.price_rupiah
  open_seats xs

abbrev pub is_pending : Event → Bool
is_pending e = event_status_eq e.status EventStatus.pending

-- The seats of an event that was just published.
unfoldable pub open_event : Event → Ticketing Event
open_event e = do types ← EventRepo.list_ticket_types_by_event e.id; open_seats types; pure e

unfoldable pub approve_loaded : ℕ → Uuid → Event → Ticketing Event
approve_loaded now admin_id e = do
  raise_if (not (is_pending e)) event_not_approvable
  saved now (reviewed EventStatus.published admin_id now e) >>= open_event

unfoldable pub approve_event : ℕ → Uuid → Uuid → Ticketing Event
approve_event now id admin_id = do e ← load_event id; approve_loaded now admin_id e

-- The reason that the caller gives is not stored.
unfoldable pub reject_loaded : ℕ → Uuid → Event → Ticketing Event
reject_loaded now admin_id e = do
  raise_if (not (is_pending e)) event_not_approvable
  saved now (reviewed EventStatus.rejected admin_id now e)

unfoldable pub reject_event : ℕ → Uuid → Uuid → Ticketing Event
reject_event now id admin_id = do e ← load_event id; reject_loaded now admin_id e

abbrev pub cancellation : Uuid → ℕ → Message
cancellation id now = event_cancelled (record { event_id = id; at = now })

unfoldable pub announce_cancellation : Uuid → ℕ → Ticketing ⊤
announce_cancellation id now =
    ignore (
      exec
        λ t. ok (tt, record t { outbox = insert_row (of_row id) (cancellation id now) t.outbox }))

abbrev pub called_off : ℕ → Event → Event
called_off now e = record e { status = EventStatus.cancelled; updated_at = now }

unfoldable pub announced : ℕ → Event → Ticketing Event
announced now e = do announce_cancellation e.id now; pure e

unfoldable pub cancel_loaded : ℕ → Uuid → Event → Ticketing Event
cancel_loaded now user e = do
  raise_if (not (event_status_eq e.status EventStatus.published)) event_not_cancellable
  raise_if (not (e.organizer_id == user)) not_event_owner
  saved now (called_off now e) >>= announced now

unfoldable pub cancel_event : ℕ → Uuid → Uuid → Ticketing Event
cancel_event now id user = do e ← load_event id; cancel_loaded now user e

unfoldable pub reprocess_loaded : ℕ → Uuid → Bool → Event → Ticketing Event
reprocess_loaded now user check_owner e = do
  raise_if (not (event_status_eq e.status EventStatus.cancelled)) event_not_cancelled
  raise_if (check_owner && not (e.organizer_id == user)) not_event_owner
  announced now e

unfoldable pub reprocess : ℕ → Uuid → Uuid → Bool → Ticketing Event
reprocess now id user check_owner = do e ← load_event id; reprocess_loaded now user check_owner e

unfoldable pub reprocess_cancellation : ℕ → Uuid → Uuid → Ticketing Event
reprocess_cancellation now id user = reprocess now id user true

-- The admin's variant names no user, and checks none.
unfoldable pub reprocess_cancellation_as_admin : ℕ → Uuid → Ticketing Event
reprocess_cancellation_as_admin now id = reprocess now id 0 false

unfoldable pub fill_available : List TicketType → Ticketing (List TicketType)
fill_available [] = pure []
fill_available (x ∷ xs) = do
  n ← SeatCounter.read_available x.id
  rest ← fill_available xs
  pure (record x { available = n } ∷ rest)

-- The error of the list is dropped, and leaves no ticket types.
abbrev pub types_or_none : Result Error (List TicketType) → List TicketType
types_or_none (ok xs) = xs
types_or_none (err _) = []
types_or_none (db_err _) = []

unfoldable pub with_types : Event → Ticketing (Event × List TicketType)
with_types e = do
  r ← attempt (EventRepo.list_ticket_types_by_event e.id)
  types ← fill_available (types_or_none r)
  pure (e, types)

unfoldable pub get_event : Uuid → Ticketing (Event × List TicketType)
get_event id = do e ← load_event id; with_types e
