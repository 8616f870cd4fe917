-- ===== src/Ticketing/Lifecycle/Handlers.antt =====
-- Every part of a call about events moves an event by one step from a state that it had before.
use ticketbus.Base.{
  ℕ, ◌≡◌, refl, Bool, true, false, not, int_gt, Uuid, String, ◌&&◌, ◌==◌, List, [], ◌∷◌, ◌++◌, All,
  arith,
}
use ticketbus.Db.{Result, ok, err, db_err, World, raise_if, done, ◌>>=◌, ◌>>◌}
use ticketbus.Db.Ensures.{Ensures, Ensures-mono, Ensures-bind, Ensures-tables}
use ticketbus.Dto.{EventStatus, event_status_eq}
use ticketbus.Ticketing.Domain.{
  Error, Tables, Event, TicketType, ticket_types_empty, capacity_exceeded, not_event_owner,
  event_not_editable, event_not_approvable, event_not_cancellable, event_not_cancelled, Ticketing,
}
use ticketbus.Ticketing.Events
use ticketbus.Ticketing.Events.{
  store_event, number_types, no_types, total_quantity, new_event, event_or_not_found, load_event,
  rewritten, reviewed, called_off, saved, announced, announce_cancellation, cancellation,
  is_pending, is_editable, update_loaded, reject_loaded, cancel_loaded, approve_loaded,
  reprocess_loaded, open_seats, open_event, with_types, fill_available,
}
use ticketbus.Ticketing.Lifecycle.{stays, approval, rejection, calling_off, here, Follows, Fits}
use ticketbus.Ticketing.EventCalls.{
  EventCall, updates, approves, rejects, cancels, reprocesses, reprocesses_as_admin, event_of,
  goes_on, Service, Step, creates, loads, fails, ends, Steps as CallSteps, here as at_start, next,
  idle,
}
use ticketbus.Ticketing.Lifecycle.Steps.{
  Moved, Loaded, Loaded-load_event, Moved-check, Moved-saved, Moved-announced, Moved-reviewed,
  published_status,
}
use ticketbus.Ticketing.Lifecycle.Opening.{Steps, Moved-open_event, Moved-store_event}

same_result : (r : Result Error Event) (x e : Event) → r ≡ ok x → r ≡ ok e → x ≡ e
same_result r x e p q = ground arith

All-middle :
    {A : Type 0} (P : A → Type 0) (xs : List A) (x : A) (ys : List A)
    → All P (xs ++ x ∷ ys)
    → P x × All P (xs ++ ys)
All-middle P [] x ys h = h
All-middle P (y ∷ xs) x ys (p, h) = let (q, rest) = All-middle P xs x ys h in (q, (p, rest))

module _ (before : List Event) where
  Moved-approve_loaded :
      (now : ℕ) (admin_id : Uuid) (e : Event) (w : World Tables)
      → Moved before w.tables
      → Fits before e
      → Steps before (approve_loaded now admin_id e w)
  unfolding approve_loaded
  Moved-approve_loaded now admin_id e w h read =
      Moved-check before (not (is_pending e)) event_not_approvable
        (saved now (reviewed EventStatus.published admin_id now e) >>= open_event) w h
        λ passes.
          Ensures-bind (λ _. Moved before) (λ _. Moved before) (Moved before)
            (saved now (reviewed EventStatus.published admin_id now e)) open_event w
            (Moved-reviewed before EventStatus.published now admin_id e w approval read h passes)
            (λ n w' h'. Moved-open_event before n w' h')

  Moved-reject_loaded :
      (now : ℕ) (admin_id : Uuid) (e : Event) (w : World Tables)
      → Moved before w.tables
      → Fits before e
      → Steps before (reject_loaded now admin_id e w)
  unfolding reject_loaded
  Moved-reject_loaded now admin_id e w h read =
      Moved-check before (not (is_pending e)) event_not_approvable
        (saved now (reviewed EventStatus.rejected admin_id now e)) w h
        (λ passes.
          Moved-reviewed before EventStatus.rejected now admin_id e w rejection read h passes)

  Moved-update_loaded :
      (now : ℕ) (organizer : Uuid) (title text : String) (start_at end_at : ℕ) (e : Event)
      (w : World Tables)
      → Moved before w.tables
      → Fits before e
      → Steps before (update_loaded now organizer title text start_at end_at e w)
  unfolding update_loaded
  Moved-update_loaded now organizer title text start_at end_at e w h read =
      Moved-check before (not (e.organizer_id == organizer)) not_event_owner
        (raise_if (not (is_editable e.status)) event_not_editable >> saved now n) w h
        λ _.
          Moved-check before (not (is_editable e.status)) event_not_editable (saved now n) w h
            (λ _. Moved-saved before e n now w refl read stays h)
    where
      n : Event
      n = rewritten title text start_at end_at now e

  Moved-cancel_loaded :
      (now : ℕ) (user : Uuid) (e : Event) (w : World Tables)
      → Moved before w.tables
      → Fits before e
      → Steps before (cancel_loaded now user e w)
  unfolding cancel_loaded
  Moved-cancel_loaded now user e w h read =
      Moved-check before (not (event_status_eq e.status EventStatus.published))
        event_not_cancellable
        (raise_if (not (e.organizer_id == user)) not_event_owner
          >> (saved now (called_off now e) >>= announced now))
        w h
        λ passes.
          Moved-check before (not (e.organizer_id == user)) not_event_owner
            (saved now (called_off now e) >>= announced now) w h
            λ _.
              Ensures-bind (λ _. Moved before) (λ _. Moved before) (Moved before)
                (saved now (called_off now e)) (announced now) w
                (Moved-saved before e (called_off now e) now w refl read
                  (rw (published_status before e.status passes) calling_off) h)
                (λ n w' h'. Moved-announced before now n w' h')

  Moved-reprocess_loaded :
      (now : ℕ) (user : Uuid) (owner : Bool) (e : Event) (w : World Tables)
      → Moved before w.tables
      → Steps before (reprocess_loaded now user owner e w)
  unfolding reprocess_loaded
  Moved-reprocess_loaded now user owner e w h =
      Moved-check before (not (event_status_eq e.status EventStatus.cancelled)) event_not_cancelled
        (raise_if (owner && not (e.organizer_id == user)) not_event_owner >> announced now e) w h
        λ _.
          Moved-check before (owner && not (e.organizer_id == user)) not_event_owner
            (announced now e) w h (λ _. Moved-announced before now e w h)

  Moved-create_event :
      (env : Events.Env) (f : Events.Form) (types : List TicketType) (w : World Tables)
      → Moved before w.tables
      → Steps before (Events.create_event env f types w)
  unfolding Events.create_event
  Moved-create_event env f types w h =
      Moved-check before (no_types types) ticket_types_empty
        (raise_if (int_gt (total_quantity types) f.venue_capacity) capacity_exceeded
          >> store_event env (new_event env f) types)
        w h
        λ _.
          Moved-check before (int_gt (total_quantity types) f.venue_capacity) capacity_exceeded
            (store_event env (new_event env f) types) w h
            (λ _. Moved-store_event before env (new_event env f) types w h)

  -- The call's answer is dropped.
  Moved-drop :
      {A : Type 0} (m : Ticketing A) (w : World Tables)
      → Steps before (m w)
      → Steps before ((m >> done) w)
  Moved-drop m w h =
      Ensures-bind (λ _. Moved before) (λ _. Moved before) (Moved before) m (λ _. done) w h
        (λ _ _ h'. h')

  Moved-goes_on :
      (c : EventCall) (e : Event) (w : World Tables)
      → Moved before w.tables
      → Fits before e
      → Steps before (goes_on c e w)
  unfolding goes_on
  Moved-goes_on (updates now id user title text a b) e w h read =
      Moved-drop (update_loaded now user title text a b e) w
        (Moved-update_loaded now user title text a b e w h read)
  Moved-goes_on (approves now id admin_id) e w h read =
      Moved-drop (approve_loaded now admin_id e) w (Moved-approve_loaded now admin_id e w h read)
  Moved-goes_on (rejects now id admin_id) e w h read =
      Moved-drop (reject_loaded now admin_id e) w (Moved-reject_loaded now admin_id e w h read)
  Moved-goes_on (cancels now id user) e w h read =
      Moved-drop (cancel_loaded now user e) w (Moved-cancel_loaded now user e w h read)
  Moved-goes_on (reprocesses now id user) e w h read =
      Moved-drop (reprocess_loaded now user true e) w (Moved-reprocess_loaded now user true e w h)
  Moved-goes_on (reprocesses_as_admin now id) e w h read =
      Moved-drop (reprocess_loaded now 0 false e) w (Moved-reprocess_loaded now 0 false e w h)

  -- The events follow, and every call in its middle has read what fits.
  abbrev Kept : Service → Type 0
  Kept s = Moved before s.world.tables × All (λ b. Fits before b.event) s.begun

  Kept-loads :
      (c : EventCall) (e : Event) (out : Result Error Event × World Tables)
      → Ensures (Loaded before) (Moved before) out
      → out.0 ≡ ok e
      → Moved before out.1.tables × Fits before e
  Kept-loads c e (ok x, w) h got = (h.0, rw (← (same_result (ok x) x e refl got)) h.1)
  Kept-loads c e (err _, w) h got = absurd (ground arith)
  Kept-loads c e (db_err _, w) h got = absurd (ground arith)

  Kept-Step : {s t : Service} → Step s t → Kept s → Kept t
  Kept-Step (creates s env f types) h = (
    Ensures-tables (Moved before) (Events.create_event env f types s.world)
        (Moved-create_event env f types s.world h.0),
    h.1,
  )
  Kept-Step (loads s c e got) h =
      let (moved, read) =
        Kept-loads c e (load_event (event_of c) s.world)
          (Loaded-load_event before (event_of c) s.world h.0) got in
      (moved, (read, h.1))
  Kept-Step (fails s c) h = (
    Ensures-tables (Moved before) (load_event (event_of c) s.world) (
        Ensures-mono (Loaded before) (λ _. Moved before) (Moved before) (Moved before)
          (load_event (event_of c) s.world) (Loaded-load_event before (event_of c) s.world h.0)
          (λ _ _ l. l.0) (λ _ m. m)),
    h.1,
  )
  Kept-Step (ends s xs ys b e) h =
      let (read, others) = All-middle (λ x. Fits before x.event) xs b ys (rw (← e) h.1) in
      (
        Ensures-tables (Moved before) (goes_on b.call b.event s.world)
            (Moved-goes_on b.call b.event s.world h.0 read),
        others,
      )

-- However calls about events overlap, and whichever statements fail on the way: from a moment at which
-- no call has begun, every event is still there with its organizer, in a state that is reached from
-- the one it had by approval or rejection of a pending event and by cancellation of a published one.
pub Steps-Follows :
    (w : World Tables) (s : Service) → CallSteps (idle w) s → Follows w.tables.events s.world.tables
Steps-Follows w s steps = (kept steps).0
  where
    kept : {t : Service} → CallSteps (idle w) t → Kept w.tables.events t
    kept at_start = ((λ k e there. (e, there, here, refl)), tt)
    kept (next steps one) = Kept-Step w.tables.events one (kept steps)
