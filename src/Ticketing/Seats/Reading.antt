-- ===== src/Ticketing/Seats/Reading.antt =====
-- What a booking's loader read stays true while the items do not change.
use ticketbus.Base.{
  ℕ, ◌≡◌, arith, Uuid, Option, none, some, inl, inr, List, [], ◌∷◌, All, Bool-cases,
}
use ticketbus.Table.{find, find-key}
use ticketbus.Db.{
  World, Result, ok, err, db_err, pure, attempt, query, query_row, query_rows, ◌>>=◌,
}
use ticketbus.Db.Ensures.{
  Ensures, Outcome, Ensures-bind, IsPrefix, Ensures-query, Ensures-query_rows, Ensures-query_row,
  Ensures-attempt,
}
use ticketbus.Ticketing.Domain.{
  Tables, BookingRow, Booking, ItemRow, pending, status_eq, booking_key, Error,
}
use ticketbus.Ticketing.BookingRepo.{find_by_id, items_of, assemble, load_items, list_by_event_id}
use ticketbus.Ticketing.Booking.Transitions.{if_pending, load_pending_booking}
use ticketbus.Ticketing.Seats.{status_eq→eq, requested-scan, booked-append}
use ticketbus.Ticketing.Seats.Settle.{Kept, LoadedFrom}

assemble-LoadedFrom :
    (r : BookingRow) (is js : List ItemRow)
    → IsPrefix js (items_of r.id is)
    → LoadedFrom is (assemble r js)
unfolding assemble
assemble-LoadedFrom r is js (zs, e) k =
    rw (← e) (omega (arith, requested-scan k js, booked-append k js zs))

module _ (s : Uuid → ℕ) (is : List ItemRow) where
  -- A booking that was just read, and what was read of it.
  abbrev pub Read : Booking → Tables → Type 0
  Read b t = Kept s is t × LoadedFrom is b

  abbrev pub ReadPending : Option Booking → Tables → Type 0
  ReadPending none t = Kept s is t
  ReadPending (some b) t = Kept s is t × LoadedFrom is b × (b.status ≡ pending)

  pub Read-find_by_id :
      (id : Uuid) (w : World Tables)
      → Kept s is w.tables
      → Ensures Read (Kept s is) (find_by_id id w)
  unfolding find_by_id
  Read-find_by_id id w h =
      Ensures-bind (λ r t. Kept s is t × (r.id ≡ id)) Read (Kept s is)
        (query_row (λ t. find booking_key id t.bookings))
        (λ r. query_rows (λ t. items_of id t.booking_items) >>= λ js. pure (assemble r js)) w
        (Ensures-query_row Error _ _ _ w h
          (λ r e. (h, find-key booking_key id r w.tables.bookings e)))
        λ r w' (h', e).
          Ensures-bind (λ js t. Kept s is t × IsPrefix js (items_of id is)) Read (Kept s is)
            (query_rows (λ t. items_of id t.booking_items)) (λ js. pure (assemble r js)) w'
            (Ensures-query_rows Error _ _ _ w' h' (λ js got. (h', rw (← h'.same_items) got)))
            λ js w'' (h'', got). (h'', assemble-LoadedFrom r is js (rw e got))

  pub Read-if_pending :
      (r : Result Error Booking) (w : World Tables)
      → Outcome Read (Kept s is) r w.tables
      → Ensures ReadPending (Kept s is) (if_pending r w)
  Read-if_pending (ok b) w h = elim (Bool-cases (status_eq b.status pending)) [
    | inl same ↦ rw same (h.0, h.1, status_eq→eq b.status pending same)
    | inr other ↦ rw other h.0
  ]
  Read-if_pending (err e) w h = h
  Read-if_pending (db_err e) w h = h

  pub Read-load_pending_booking :
      (id : Uuid) (w : World Tables)
      → Kept s is w.tables
      → Ensures ReadPending (Kept s is) (load_pending_booking id w)
  unfolding load_pending_booking
  Read-load_pending_booking id w h =
      Ensures-bind (Outcome Read (Kept s is)) ReadPending (Kept s is) (attempt (find_by_id id))
        if_pending w
        (Ensures-attempt Read (Kept s is) (Kept s is) (find_by_id id) w (Read-find_by_id id w h))
        Read-if_pending

  -- The bookings of a list were read while the items were `is`.
  abbrev pub ReadAll : List Booking → Tables → Type 0
  ReadAll bs t = Kept s is t × All (LoadedFrom is) bs

  pub Read-load_items :
      (rs : List BookingRow) (w : World Tables)
      → Kept s is w.tables
      → Ensures ReadAll (Kept s is) (load_items rs w)
  unfolding load_items
  Read-load_items [] w h = (h, tt)
  Read-load_items (r ∷ rs) w h =
      Ensures-bind (λ js t. Kept s is t × IsPrefix js (items_of r.id is)) ReadAll (Kept s is)
        (query_rows (λ t. items_of r.id t.booking_items))
        (λ js. load_items rs >>= λ bs. pure (assemble r js ∷ bs)) w
        (Ensures-query_rows Error _ _ _ w h (λ js got. (h, rw (← h.same_items) got)))
        λ js w' (h', got).
          Ensures-bind ReadAll ReadAll (Kept s is) (load_items rs) (λ bs. pure (assemble r js ∷ bs))
            w' (Read-load_items rs w' h')
            λ bs w'' (h'', loaded). (h'', (assemble-LoadedFrom r is js got, loaded))

  pub Read-list_by_event_id :
      (event : Uuid) (w : World Tables)
      → Kept s is w.tables
      → Ensures ReadAll (Kept s is) (list_by_event_id event w)
  unfolding list_by_event_id
  Read-list_by_event_id event w h =
      Ensures-bind (λ _. Kept s is) ReadAll (Kept s is) (query _) load_items w
        (Ensures-query Error _ _ _ w h h) Read-load_items
