-- ===== src/Ticketing/Seats/Settle.antt =====
-- The guarded transition of a booking and the release of its seats keep the seat accounting.
use ticketbus.Base.{
  ℕ, zero, suc, ◌+◌, ◌≤◌, ◌≡◌, ap, Bool, true, false, Uuid, some, inl, inr, List, [], ◌∷◌, ⊤, arith,
  Bool-cases, Option-cases,
}
use ticketbus.Table.{find, update}
use ticketbus.Db.{World, ok, exec, pure, commit, begin, ◌>>=◌, ◌>>◌}
use ticketbus.Db.Ensures.{Runs, Ensures, Ensures-exec, Ensures-bind, Ensures-atomic}
use ticketbus.Ticketing.Domain.{
  Tables, TicketRow, BookingRow, Booking, BookingItem, ItemRow, BookingStatus, status_eq,
  ticket_key, booking_key, Error,
}
use ticketbus.Ticketing.SeatCounter.{release_seats, give_seats, update_ticket}
use ticketbus.Ticketing.BookingRepo.{
  move_status, release_items, release_if_moved, transition_and_release_seats, transition_tx,
  items_of, with_status,
}
use ticketbus.Ticketing.Seats.{
  Sound, at_type, requested, booked, holds, status_eq→eq, Room-give, held-release, LinkedTo-update,
  Room-mono,
}

-- The accounting holds and the items are still those at the start.
pub record Kept (slack : Uuid → ℕ) (is : List ItemRow) (t : Tables) : Type 0 where
  pub sound : Sound slack t
  pub same_items : t.booking_items ≡ is

-- The booking was read while the items were `is`: all of its items, or those before a broken read.
abbrev pub LoadedFrom : List ItemRow → Booking → Type 0
LoadedFrom is b = (k : Uuid) → requested k b.items ≤ booked k (items_of b.id is)

-- An `UPDATE` of a ticket type affects no row, or the one row that it finds and that passes.
pub Runs-update_ticket :
    (P : ℕ → Tables → Type 0) (id : Uuid) (guard : TicketRow → Bool) (f : TicketRow → TicketRow)
    (t : Tables)
    → P 0 t
    → ((r : TicketRow)
        → find ticket_key id t.ticket_types ≡ some r
        → guard r ≡ true
        → P 1 (record t { ticket_types = update ticket_key id f t.ticket_types }))
    → Runs P (update_ticket id guard f t)
Runs-update_ticket P id guard f t nothing one =
    elim (Option-cases (find ticket_key id t.ticket_types)) [
      | inl gone ↦ rw (Runs, gone) nothing
      | inr (r, there) ↦ elim (Bool-cases (guard r)) [
        | inl passes ↦ rw (Runs, there, passes) (one r there passes)
        | inr fails ↦ rw (Runs, there, fails) nothing
      ]
    ]

pub Runs-move_status :
    (P : ℕ → Tables → Type 0) (id : Uuid) (from to : BookingStatus) (t : Tables)
    → P 0 t
    → ((r : BookingRow)
        → find booking_key id t.bookings ≡ some r
        → r.status ≡ from
        → P 1 (record t { bookings = update booking_key id (with_status to) t.bookings }))
    → Runs P (move_status id from to t)
unfolding move_status
Runs-move_status P id from to t nothing one = elim (Option-cases (find booking_key id t.bookings)) [
  | inl gone ↦ rw (gone, move_status) nothing
  | inr (r, there) ↦ elim (Bool-cases (status_eq r.status from)) [
    | inl same ↦ rw (there, move_status, same) (one r there (status_eq→eq r.status from same))
    | inr other ↦ rw (there, move_status, other) nothing
  ]
]

module _ (is : List ItemRow) where
  Kept-mono :
      (s s' : Uuid → ℕ) (t : Tables) → Kept s is t → ((k : Uuid) → s' k ≤ s k) → Kept s' is t
  Kept-mono s s' t h le = record {
    sound = record { room = Room-mono s s' t h.sound.room le; linked = h.sound.linked };
    same_items = h.same_items;
  }

  Kept-give :
      (s : Uuid → ℕ) (id : Uuid) (n : ℕ) (t : Tables)
      → Kept (λ k. s k + at_type id n k) is t
      → Runs (λ _. Kept s is) (release_seats id n t)
  unfolding release_seats
  Kept-give s id n t h =
      Runs-update_ticket (λ _. Kept s is) id (λ _. true) (give_seats n) t
        (Kept-mono _ s t h (λ k. omega arith))
        λ r there passes. record {
          sound = record { room = Room-give s id n t h.sound.room; linked = h.sound.linked };
          same_items = h.same_items;
        }

  -- All seats of the items go back to the counters, whatever statement fails on the way.
  pub Kept-release_items :
      (s : Uuid → ℕ) (items : List BookingItem) (w : World Tables)
      → Kept (λ k. s k + requested k items) is w.tables
      → Ensures (λ _. Kept s is) (λ _. ⊤) (release_items items w)
  unfolding release_items
  Kept-release_items s [] w h = Kept-mono _ s w.tables h (λ k. omega arith)
  Kept-release_items s (i ∷ items) w h =
      Ensures-bind (λ _. Kept (λ k. s k + requested k items) is) (λ _. Kept s is) (λ _. ⊤)
        (exec (release_seats i.ticket_type_id i.quantity)) (λ _. release_items items) w
        (Ensures-exec Error _ _ (release_seats i.ticket_type_id i.quantity) w tt (
          Kept-give (λ k. s k + requested k items) i.ticket_type_id i.quantity w.tables
            (Kept-mono _ _ w.tables h (λ k. omega arith))))
        (λ n w' h'. Kept-release_items s items w' h')

  module _ (s : Uuid → ℕ) (b : Booking) (to : BookingStatus) where
    -- The tables after the status update affected `n` rows: the seats of a moved booking are slack.
    abbrev Moved : ℕ → Tables → Type 0
    Moved zero = Kept s is
    Moved (suc _) = Kept (λ k. s k + requested k b.items) is

    Moved-move_status :
        LoadedFrom is b
        → holds b.status ≡ true
        → holds to ≡ false
        → (t : Tables) → Kept s is t
        → Runs Moved (move_status b.id b.status to t)
    Moved-move_status loaded live ends t h =
        Runs-move_status Moved b.id b.status to t h λ r there same. record {
          sound = record {
            room = λ k x e. omega (
              arith,
              h.sound.room k x e,
              loaded k,
              held-release k b.id to t.bookings t.booking_items (rw (there, same) live) ends,
              ap (λ js. booked k (items_of b.id js)) h.same_items,
            );
            linked = LinkedTo-update b.id to t.bookings t.booking_items h.sound.linked;
          };
          same_items = h.same_items;
        }

    Moved-release :
        (n : ℕ) (w : World Tables)
        → Moved n w.tables
        → Ensures (λ _. Kept s is) (λ _. ⊤) (release_if_moved n b.items w)
    unfolding release_if_moved
    Moved-release zero w h = h
    Moved-release (suc n) w h =
        Ensures-bind (λ _. Kept s is) (λ _. Kept s is) (λ _. ⊤) (release_items b.items)
          (λ _. commit >> pure true) w (Kept-release_items s b.items w h)
          λ _ w' h'.
            Ensures-bind (λ _. Kept s is) (λ _. Kept s is) (λ _. ⊤) commit (λ _. pure true) w'
              (Ensures-exec Error _ _ _ w' tt h') (λ _ _ h''. h'')

    -- A settled booking gives its seats back, or the tables are left as they were.
    pub Kept-transition :
        LoadedFrom is b
        → holds b.status ≡ true
        → holds to ≡ false
        → (w : World Tables) → Kept s is w.tables
        → Ensures (λ _. Kept s is) (Kept s is) (transition_and_release_seats b to w)
    unfolding transition_and_release_seats transition_tx
    Kept-transition loaded live ends w h =
        Ensures-atomic (λ _. Kept s is) (Kept s is) (transition_tx b to) w h
          (Ensures-bind (λ _. Kept s is) (λ _. Kept s is) (λ _. ⊤) begin
            (λ _. exec (move_status b.id b.status to) >>= λ n. release_if_moved n b.items) w
            (Ensures-exec Error (λ _. Kept s is) (λ _. ⊤) (λ t. ok (tt, t)) w tt h)
            λ _ w' h'.
              Ensures-bind Moved (λ _. Kept s is) (λ _. ⊤) (exec (move_status b.id b.status to))
                (λ n. release_if_moved n b.items) w'
                (Ensures-exec Error Moved (λ _. ⊤) (move_status b.id b.status to) w' tt
                  (Moved-move_status loaded live ends w'.tables h'))
                (λ n w'' h''. Moved-release n w'' h''))
