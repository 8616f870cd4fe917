-- ===== src/Ticketing/Lifecycle/Opening.antt =====
-- The ticket types and the seats of an event, which leave the events alone.
use ticketbus.Base.{
  ℕ, ◌≡◌, true, ◌++◌, Uuid, Option-cases, Bool-cases, leb, some, inl, inr, List, [], ◌∷◌,
}
use ticketbus.Table.{find, update}
use ticketbus.Db.{World, Result, exec, pure, ◌>>◌}
use ticketbus.Db.Ensures.{
  Ensures, Runs, Ensures-bind, Ensures-exec, Ensures-query_rows, Runs-write_unless,
}
use ticketbus.Ticketing.Domain.{TicketRow, Tables, Event, TicketType, ticket_key, Error}
use ticketbus.Ticketing.EventRepo
use ticketbus.Ticketing.EventRepo.{edited, edit_event}
use ticketbus.Ticketing.Events
use ticketbus.Ticketing.Events.{
  store_event, number_types, no_types, total_quantity, new_event, event_or_not_found, load_event,
  rewritten, reviewed, called_off, saved, announced, announce_cancellation, cancellation,
  is_pending, is_editable, update_loaded, reject_loaded, cancel_loaded, approve_loaded,
  reprocess_loaded, open_seats, open_event, with_types, fill_available,
}
use ticketbus.Ticketing.SeatCounter
use ticketbus.Ticketing.SeatCounter.{update_ticket, with_seats, init_seats}
use ticketbus.Ticketing.Seats.Settle.{Runs-update_ticket}
use ticketbus.Ticketing.Lifecycle.{Follows-append}
use ticketbus.Ticketing.Lifecycle.Steps.{Moved, Moved-update_ticket}

Runs-init_seats :
    (P : ℕ → Tables → Type 0) (id : Uuid) (total : ℕ) (t : Tables)
    → P 0 t
    → ((r : TicketRow)
        → find ticket_key id t.ticket_types ≡ some r
        → P 1 (record t { ticket_types = update ticket_key id (with_seats total) t.ticket_types }))
    → Runs P (init_seats id total t)
unfolding init_seats
Runs-init_seats P id total t nothing one = elim (Option-cases (find ticket_key id t.ticket_types)) [
  | inl gone ↦ rw (gone, init_seats, Runs) nothing
  | inr (r, there) ↦ elim (Bool-cases (leb total r.quantity)) [
    | inl fits ↦
        rw (there, init_seats, fits)
          (Runs-update_ticket P id (λ _. true) (with_seats total) t nothing
            (λ x found _. one x found))
    | inr over ↦ rw (there, init_seats, over) tt
  ]
]

module _ (before : List Event) where
  -- What a call ensures.
  abbrev pub Steps : {A : Type 0} → Result Error A × World Tables → Type 0
  Steps = Ensures (λ _. Moved before) (Moved before)

  pub Moved-init :
      (id : Uuid) (total : ℕ) (w : World Tables)
      → Moved before w.tables
      → Steps (SeatCounter.init id total w)
  unfolding SeatCounter.init
  Moved-init id total w h =
      Ensures-bind (λ _. Moved before) (λ _. Moved before) (Moved before)
        (exec (init_seats id total)) (λ _. pure tt) w
        (Ensures-exec Error (λ _. Moved before) (Moved before) (init_seats id total) w h
          (Runs-init_seats (λ _. Moved before) id total w.tables h (λ _ _. h)))
        (λ _ _ h'. h')

  pub Moved-open_seats :
      (types : List TicketType) (w : World Tables)
      → Moved before w.tables
      → Steps (open_seats types w)
  unfolding open_seats SeatCounter.set_price
  Moved-open_seats [] w h = h
  Moved-open_seats (x ∷ types) w h =
      Ensures-bind (λ _. Moved before) (λ _. Moved before) (Moved before)
        (SeatCounter.init x.id x.quantity) _ w (Moved-init x.id x.quantity w h)
        λ _ w1 h1.
          Ensures-bind (λ _. Moved before) (λ _. Moved before) (Moved before)
            (SeatCounter.set_price x.id x.price_rupiah) (λ _. open_seats types) w1
            (Ensures-bind (λ _. Moved before) (λ _. Moved before) (Moved before)
              (exec
                (update_ticket x.id (λ _. true) (λ r. record r { price_rupiah = x.price_rupiah })))
              (λ _. pure tt) w1
              (Moved-update_ticket before x.id (λ _. true)
                (λ r. record r { price_rupiah = x.price_rupiah }) w1 h1)
              (λ _ _ h'. h'))
            (λ _ w2 h2. Moved-open_seats types w2 h2)

  pub Moved-open_event :
      (e : Event) (w : World Tables) → Moved before w.tables → Steps (open_event e w)
  unfolding open_event EventRepo.list_ticket_types_by_event
  Moved-open_event e w h =
      Ensures-bind (λ _. Moved before) (λ _. Moved before) (Moved before)
        (EventRepo.list_ticket_types_by_event e.id) (λ types. open_seats types >> pure e) w
        (Ensures-query_rows Error (λ _. Moved before) (Moved before) _ w h (λ _ _. h))
        λ types w1 h1.
          Ensures-bind (λ _. Moved before) (λ _. Moved before) (Moved before) (open_seats types)
            (λ _. pure e) w1 (Moved-open_seats types w1 h1) (λ _ _ h'. h')

  pub Moved-create_ticket_types :
      (types : List TicketType) (w : World Tables)
      → Moved before w.tables
      → Steps (EventRepo.create_ticket_types types w)
  unfolding EventRepo.create_ticket_types EventRepo.insert_ticket
  Moved-create_ticket_types [] w h = h
  Moved-create_ticket_types (x ∷ types) w h =
      Ensures-bind (λ _. Moved before) (λ _. Moved before) (Moved before)
        (exec (EventRepo.insert_ticket x)) (λ _. EventRepo.create_ticket_types types) w
        (Ensures-exec Error (λ _. Moved before) (Moved before) (EventRepo.insert_ticket x) w h
          (Runs-write_unless (Moved before) (EventRepo.ticket_violation x w.tables) _ (λ _. h)))
        (λ _ w' h'. Moved-create_ticket_types types w' h')

  pub Moved-store_event :
      (env : Events.Env) (e : Event) (types : List TicketType) (w : World Tables)
      → Moved before w.tables
      → Steps (store_event env e types w)
  unfolding store_event EventRepo.create_event EventRepo.insert_event
  Moved-store_event env e types w h =
      Ensures-bind (λ _. Moved before) (λ _. Moved before) (Moved before)
        (EventRepo.create_event e env.now)
        (λ _. EventRepo.create_ticket_types (number_types env 0 types) >> pure e) w
        (Ensures-exec Error (λ _. Moved before) (Moved before) (EventRepo.insert_event e env.now) w
          h
          (Runs-write_unless (Moved before) (EventRepo.event_violation e w.tables)
            (record (w.tables) { events = w.tables.events ++ EventRepo.event_row e env.now ∷ [] })
            (λ _. Follows-append before (EventRepo.event_row e env.now) w.tables h)))
        λ _ w1 h1.
          Ensures-bind (λ _. Moved before) (λ _. Moved before) (Moved before)
            (EventRepo.create_ticket_types (number_types env 0 types)) (λ _. pure e) w1
            (Moved-create_ticket_types (number_types env 0 types) w1 h1) (λ _ _ h'. h')
