-- ===== src/Ticketing/EventCalls.antt =====
-- What the event handlers call to change events. A call that changes an event first loads it, and
-- later goes on with what it has loaded: other calls run in between. `Step` is one such part of a call.
use ticketbus.Base.{true, false, ℕ, ◌≡◌, Uuid, String, List, [], ◌∷◌, ◌++◌, ⊤}
use ticketbus.Db.{World, done, ok, ◌>>◌}
use ticketbus.Ticketing.Domain.{Tables, Event, TicketType, Ticketing}
use ticketbus.Ticketing.Events
use ticketbus.Ticketing.Events.{
  load_event, update_loaded, approve_loaded, reject_loaded, cancel_loaded, reprocess_loaded,
}

pub data EventCall : Type 0 where
  updates : ℕ → Uuid → Uuid → String → String → ℕ → ℕ → EventCall
  approves : ℕ → Uuid → Uuid → EventCall
  rejects : ℕ → Uuid → Uuid → EventCall
  cancels : ℕ → Uuid → Uuid → EventCall
  reprocesses : ℕ → Uuid → Uuid → EventCall
  reprocesses_as_admin : ℕ → Uuid → EventCall

abbrev pub event_of : EventCall → Uuid
event_of (updates now id user title text start_at end_at) = id
event_of (approves now id admin_id) = id
event_of (rejects now id admin_id) = id
event_of (cancels now id user) = id
event_of (reprocesses now id user) = id
event_of (reprocesses_as_admin now id) = id

-- What a call does with the event that it has loaded. One `UPDATE` of the event is all that it does to
-- the events.
unfoldable pub goes_on : EventCall → Event → Ticketing ⊤
goes_on (updates now id user title text start_at end_at) e =
    update_loaded now user title text start_at end_at e >> done
goes_on (approves now id admin_id) e = approve_loaded now admin_id e >> done
goes_on (rejects now id admin_id) e = reject_loaded now admin_id e >> done
goes_on (cancels now id user) e = cancel_loaded now user e >> done
goes_on (reprocesses now id user) e = reprocess_loaded now user true e >> done
goes_on (reprocesses_as_admin now id) e = reprocess_loaded now 0 false e >> done

-- A call between its two parts.
pub record Begun : Type 0 where
  pub call : EventCall
  pub event : Event

pub record Service : Type 0 where
  pub world : World Tables
  pub begun : List Begun

-- One part of one call. A call whose load fails is at its end.
pub data Step : Service → Service → Type 0 where
  creates :
      (s : Service) (env : Events.Env) (f : Events.Form) (types : List TicketType)
      → Step s (record s { world = (Events.create_event env f types s.world).1 })
  loads :
      (s : Service) (c : EventCall) (e : Event)
      → (load_event (event_of c) s.world).0 ≡ ok e
      → Step s (record {
        world = (load_event (event_of c) s.world).1;
        begun = record { call = c; event = e } ∷ s.begun;
      })
  fails :
      (s : Service) (c : EventCall)
      → Step s (record s { world = (load_event (event_of c) s.world).1 })
  ends :
      (s : Service) (xs ys : List Begun) (b : Begun)
      → s.begun ≡ xs ++ b ∷ ys
      → Step s (record { world = (goes_on b.call b.event s.world).1; begun = xs ++ ys })

-- Any number of parts, of calls that overlap in any way.
pub data Steps (s : Service) : Service → Type 0 where
  here : Steps s s
  next : {t u : Service} → Steps s t → Step t u → Steps s u

-- No call has begun.
abbrev pub idle : World Tables → Service
idle w = record { world = w; begun = [] }
