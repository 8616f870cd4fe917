-- ===== src/Ticketing/Seats/Handlers.antt =====
-- No message that the service consumes upsets the seat accounting.
use ticketbus.Base.{
  ℕ, ◌≡◌, refl, Bool, true, false, ◌||◌, Uuid, Option, none, some, List, [], ◌∷◌, ⊤, arith, ◌==◌,
  All,
}
use ticketbus.Db.{World, Result, ok, err, db_err, DbError, exec, pure, attempt, query_row, ignore}
use ticketbus.Db.Ensures.{
  Ensures, Outcome, Ensures-exec, Ensures-bind, Ensures-query_row, Ensures-attempt, Ensures-ignore,
  Ensures-tables,
}
use ticketbus.Dto.{
  EventStatus, Message, ticket_issued, payment_completed, payment_expired, event_cancelled,
}
use ticketbus.Outbox.{of_ticket, insert_row}
use ticketbus.Ticketing.Domain.{
  Tables, Booking, BookingItem, ItemRow, BookingStatus, pending, confirmed, expired, cancelled,
  status_eq, Error,
}
use ticketbus.Ticketing.BookingRepo.{
  list_by_event_id, transition_and_release_seats, update_status_if_pending, move_status,
}
use ticketbus.Ticketing.Booking.Transitions.{
  load_pending_booking, event_status, published_or_error, is_published, ticket_message,
  issue_tickets, issue_if, confirm_if, confirm_loaded, confirm, release_loaded,
  expire_on_payment_expired, cancel_one, cancel_each, cancel_bookings, consume,
}
use ticketbus.Ticketing.Seats.{Sound, holds, held-keep, LinkedTo-update}
use ticketbus.Ticketing.Seats.Settle.{Kept, LoadedFrom, Kept-transition, Runs-move_status}
use ticketbus.Ticketing.Seats.Reading.{
  ReadPending, Read-load_pending_booking, ReadAll, Read-list_by_event_id,
}

module _ (s : Uuid → ℕ) (is : List ItemRow) where
  -- What every handler below ensures.
  abbrev Keeps : {A : Type 0} → Result Error A × World Tables → Type 0
  Keeps = Ensures (λ _. Kept s is) (Kept s is)

  Keeps-published_or_error :
      (r : Result Error EventStatus) (w : World Tables)
      → Kept s is w.tables
      → Keeps (published_or_error r w)
  Keeps-published_or_error (ok x) w h = h
  Keeps-published_or_error (err e) w h = h
  Keeps-published_or_error (db_err DbError.no_rows) w h = h
  Keeps-published_or_error (db_err _) w h = h

  Keeps-is_published :
      (id : Uuid) (w : World Tables) → Kept s is w.tables → Keeps (is_published id w)
  unfolding is_published
  Keeps-is_published id w h =
      Ensures-bind (Outcome (λ _. Kept s is) (Kept s is)) (λ _. Kept s is) (Kept s is)
        (attempt (query_row (event_status id))) published_or_error w
        (Ensures-attempt (λ _. Kept s is) (Kept s is) (Kept s is) (query_row (event_status id)) w
          (Ensures-query_row Error _ _ _ w h (λ _ _. h)))
        λ where_r w' h'. Keeps-published_or_error where_r w' (Outcome-either where_r w' h')
    where
      Outcome-either :
          (r : Result Error EventStatus) (w' : World Tables)
          → Outcome (λ _. Kept s is) (Kept s is) r w'.tables
          → Kept s is w'.tables
      Outcome-either (ok _) w' h' = h'
      Outcome-either (err _) w' h' = h'
      Outcome-either (db_err _) w' h' = h'

  Keeps-issue_tickets :
      (b : Booking) (items : List BookingItem) (w : World Tables)
      → Kept s is w.tables
      → Keeps (issue_tickets b items w)
  unfolding issue_tickets
  Keeps-issue_tickets b [] w h = h
  Keeps-issue_tickets b (i ∷ items) w h =
      Ensures-bind (λ _. Kept s is) (λ _. Kept s is) (Kept s is) (ignore (exec insert))
        (λ _. issue_tickets b items) w
        (Ensures-ignore (λ _. Kept s is) (Kept s is) (Kept s is) (exec insert) w
          (Ensures-exec Error (λ _. Kept s is) (Kept s is) insert w h
            (record {
              sound = record { room = h.sound.room; linked = h.sound.linked };
              same_items = h.same_items;
            }))
          (λ _ _ h'. h'))
        (λ _ w' h'. Keeps-issue_tickets b items w' h')
    where
      insert : Tables → Result DbError (⊤ × Tables)
      insert t =
          ok (
            tt,
            record t { outbox = insert_row (of_ticket b.id i.id) (ticket_message b i) t.outbox },
          )

  Keeps-update_status :
      (id : Uuid) (w : World Tables)
      → Kept s is w.tables
      → Keeps (update_status_if_pending id confirmed w)
  unfolding update_status_if_pending
  Keeps-update_status id w h =
      Ensures-bind (λ _. Kept s is) (λ _. Kept s is) (Kept s is)
        (exec (move_status id pending confirmed)) (λ n. pure (n == 1)) w
        (Ensures-exec Error _ _ (move_status id pending confirmed) w h (
          Runs-move_status (λ _. Kept s is) id pending confirmed w.tables h
            λ r there same. record {
              sound = record {
                room = λ k x e. omega (
                  arith,
                  h.sound.room k x e,
                  held-keep k id confirmed w.tables.bookings w.tables.booking_items
                      (rw (there, same) refl) refl,
                );
                linked = LinkedTo-update id confirmed w.tables.bookings _ h.sound.linked;
              };
              same_items = h.same_items;
            }))
        (λ _ _ h'. h')

  Keeps-confirm_if :
      (published : Bool) (b : Booking) (w : World Tables)
      → ReadPending s is (some b) w.tables
      → Keeps (confirm_if published b w)
  unfolding confirm_if issue_if
  Keeps-confirm_if false b w (h, loaded, e) =
      Ensures-bind (λ _. Kept s is) (λ _. Kept s is) (Kept s is)
        (transition_and_release_seats b cancelled) (λ _. pure tt) w
        (Kept-transition is s b cancelled loaded (rw e refl) refl w h) (λ _ _ h'. h')
  Keeps-confirm_if true b w (h, loaded, e) =
      Ensures-bind (λ _. Kept s is) (λ _. Kept s is) (Kept s is)
        (update_status_if_pending b.id confirmed) (λ applied. issue_if applied b) w
        (Keeps-update_status b.id w h) issue
    where
      issue :
          (applied : Bool) (w' : World Tables) → Kept s is w'.tables → Keeps (issue_if applied b w')
      issue true w' h' = Keeps-issue_tickets b b.items w' h'
      issue false w' h' = h'

  Keeps-confirm_loaded :
      (b : Option Booking) (w : World Tables)
      → ReadPending s is b w.tables
      → Keeps (confirm_loaded b w)
  unfolding confirm_loaded
  Keeps-confirm_loaded none w h = h
  Keeps-confirm_loaded (some b) w h =
      Ensures-bind (λ _. Kept s is) (λ _. Kept s is) (Kept s is) (is_published b.event_id)
        (λ published. confirm_if published b) w (Keeps-is_published b.event_id w h.0)
        (λ published w' h'. Keeps-confirm_if published b w' (h', h.1, h.2))

  Keeps-confirm : (id : Uuid) (w : World Tables) → Kept s is w.tables → Keeps (confirm id w)
  unfolding confirm
  Keeps-confirm id w h =
      Ensures-bind (ReadPending s is) (λ _. Kept s is) (Kept s is) (load_pending_booking id)
        confirm_loaded w (Read-load_pending_booking s is id w h) Keeps-confirm_loaded

  Keeps-release_loaded :
      (b : Option Booking) (to : BookingStatus) (w : World Tables)
      → holds to ≡ false
      → ReadPending s is b w.tables
      → Keeps (release_loaded b to w)
  unfolding release_loaded
  Keeps-release_loaded none to w ends h = h
  Keeps-release_loaded (some b) to w ends (h, loaded, e) =
      Ensures-bind (λ _. Kept s is) (λ _. Kept s is) (Kept s is) (transition_and_release_seats b to)
        (λ _. pure tt) w (Kept-transition is s b to loaded (rw e refl) ends w h) (λ _ _ h'. h')

  Keeps-expire :
      (id : Uuid) (w : World Tables) → Kept s is w.tables → Keeps (expire_on_payment_expired id w)
  unfolding expire_on_payment_expired
  Keeps-expire id w h =
      Ensures-bind (ReadPending s is) (λ _. Kept s is) (Kept s is) (load_pending_booking id)
        (λ b. release_loaded b expired) w (Read-load_pending_booking s is id w h)
        (λ b w' h'. Keeps-release_loaded b expired w' refl h')

  Keeps-cancel_one :
      (live : Bool) (b : Booking) (w : World Tables)
      → LoadedFrom is b
      → (live ≡ true → holds b.status ≡ true)
      → Kept s is w.tables
      → Keeps (cancel_one live b w)
  unfolding cancel_one
  Keeps-cancel_one false b w loaded live h = h
  Keeps-cancel_one true b w loaded live h =
      Ensures-bind (λ _. Kept s is) (λ _. Kept s is) (Kept s is)
        (transition_and_release_seats b cancelled) (λ _. pure tt) w
        (Kept-transition is s b cancelled loaded (live refl) refl w h) (λ _ _ h'. h')

  Keeps-cancel_each :
      (bs : List Booking) (w : World Tables)
      → Kept s is w.tables
      → All (LoadedFrom is) bs
      → Keeps (cancel_each bs w)
  unfolding cancel_each
  Keeps-cancel_each [] w h loaded = h
  Keeps-cancel_each (b ∷ bs) w h loaded =
      Ensures-bind (λ _. Kept s is) (λ _. Kept s is) (Kept s is)
        (cancel_one (status_eq b.status confirmed || status_eq b.status pending) b)
        (λ _. cancel_each bs) w (Keeps-cancel_one _ b w loaded.0 (live_holds b.status) h)
        (λ _ w' h'. Keeps-cancel_each bs w' h' loaded.1)
    where
      live_holds :
          (x : BookingStatus)
          → (status_eq x confirmed || status_eq x pending) ≡ true
          → holds x ≡ true
      live_holds x e = ground arith

  Keeps-cancel_bookings :
      (event : Uuid) (w : World Tables) → Kept s is w.tables → Keeps (cancel_bookings event w)
  unfolding cancel_bookings
  Keeps-cancel_bookings event w h =
      Ensures-bind (ReadAll s is) (λ _. Kept s is) (Kept s is) (list_by_event_id event) cancel_each
        w (Read-list_by_event_id s is event w h)
        (λ bs w' (h', loaded). Keeps-cancel_each bs w' h' loaded)

  Keeps-consume : (m : Message) (w : World Tables) → Kept s is w.tables → Keeps (consume m w)
  unfolding consume
  Keeps-consume (payment_completed m) w h = Keeps-confirm m.booking_id w h
  Keeps-consume (payment_expired m) w h = Keeps-expire m.booking_id w h
  Keeps-consume (event_cancelled m) w h = Keeps-cancel_bookings m.event_id w h
  Keeps-consume (ticket_issued m) w h = h

-- Whatever message the ticketing service consumes, in whatever state of the bookings, and whichever
-- statements fail on the way: where every item has its booking, and for every ticket type the free
-- seats, the seats that pending and confirmed bookings hold and a slack `s` fit into the quantity on
-- sale, the same holds after the handler.
pub consume-Sound :
    (s : Uuid → ℕ) (m : Message) (w : World Tables)
    → Sound s w.tables
    → Sound s (consume m w).1.tables
consume-Sound s m w h =
    (Ensures-tables (Kept s w.tables.booking_items) (consume m w)
      (Keeps-consume s w.tables.booking_items m w (record { sound = h; same_items = refl }))).sound
