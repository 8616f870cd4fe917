-- ===== src/Ticketing/Seats/Created.antt =====
-- The seats of a reservation pass from the slack to the booking that `Create` writes.
use ticketbus.Base.{
  ℕ, suc, ◌+◌, ◌≡◌, refl, Bool, true, false, Uuid, String, none, List, [], ◌∷◌, ◌++◌, ⊤, arith,
  is_some,
}
use ticketbus.Table.{find}
use ticketbus.Db.{
  World, Result, ok, err, db_err, exec, pure, raise, raise_db, raise_if, attempt, begin, commit,
  ◌>>◌,
}
use ticketbus.Db.Ensures.{
  Ensures, Outcome, Runs, Runs-write_unless, Ensures-exec, Ensures-bind, Ensures-mono,
  Ensures-tables, Ensures-attempt, Ensures-atomic,
}
use ticketbus.Ticketing.Domain.{
  Tables, Booking, BookingItem, booking_key, Reservation, Error, Ticketing, invalid_quantity,
}
use ticketbus.Ticketing.BookingRepo.{
  booking_violation, item_violation, insert_booking, insert_item, insert_items, create, create_tx,
  booking_row, item_row,
}
use ticketbus.Ticketing.Payment.{PaymentRequest}
use ticketbus.Ticketing.Booking.Reserve.{
  Env, rollback_seats, reserve_items, fill, reservation, booking_for, created_or_rollback,
  paid_or_rollback, payment_request, book, is_empty, reserve,
}
use ticketbus.Ticketing.Seats.{
  Sound, Sound-mono, at_type, requested, held-append, held-append_item, LinkedTo-append,
  LinkedTo-append_item,
}
use ticketbus.Ticketing.Seats.Rollback.{Sound-rollback_seats}
use ticketbus.Ticketing.Seats.Reserving.{Sound-reserve_items}

item_violation-linked :
    (i : BookingItem) (t : Tables)
    → item_violation i t ≡ none
    → is_some (find booking_key i.booking_id t.bookings) ≡ true
unfolding item_violation
item_violation-linked i t h = ground arith

requested-fill :
    (env : Env) (k : Uuid) (n : ℕ) (items : List BookingItem)
    → requested k (fill env n items) ≡ requested k items
unfolding fill
requested-fill env k n [] = refl
requested-fill env k n (i ∷ items) = omega (arith, requested-fill env k (suc n) items)

module _ (s : Uuid → ℕ) where
  Sound-insert_booking :
      (b : Booking) (now : ℕ) (t : Tables)
      → Sound s t
      → Runs (λ _. Sound s) (insert_booking b now t)
  unfolding insert_booking
  Sound-insert_booking b now t h =
      Runs-write_unless (Sound s) (booking_violation b t)
        (record t { bookings = t.bookings ++ booking_row b now ∷ [] })
        λ _. record {
          room = λ k r e. omega (
            arith,
            h.room k r e,
            held-append k (booking_row b now) t.bookings t.booking_items h.linked,
          );
          linked = LinkedTo-append (booking_row b now) t.bookings t.booking_items h.linked;
        }

  Sound-insert_item :
      (i : BookingItem) (t : Tables)
      → Sound (λ k. s k + at_type i.ticket_type_id i.quantity k) t
      → Runs (λ _. Sound s) (insert_item i t)
  unfolding insert_item
  Sound-insert_item i t h =
      Runs-write_unless (Sound s) (item_violation i t)
        (record t { booking_items = t.booking_items ++ item_row i ∷ [] })
        λ clean. record {
          room = λ k r e.
              ground
                (arith, h.room k r e, held-append_item k t.bookings t.booking_items (item_row i));
          linked =
              LinkedTo-append_item (item_row i) t.bookings t.booking_items h.linked
                (item_violation-linked i t clean);
        }

module _ (s : Uuid → ℕ) where
  Sound-insert_items :
      (items : List BookingItem) (w : World Tables)
      → Sound (λ k. s k + requested k items) w.tables
      → Ensures (λ _. Sound s) (λ _. ⊤) (insert_items items w)
  unfolding insert_items
  Sound-insert_items [] w h = Sound-mono _ s w.tables h (λ k. omega arith)
  Sound-insert_items (i ∷ items) w h =
      Ensures-bind (λ _. Sound (λ k. s k + requested k items)) (λ _. Sound s) (λ _. ⊤)
        (exec (insert_item i)) (λ _. insert_items items) w
        (Ensures-exec Error (λ _. Sound (λ k. s k + requested k items)) (λ _. ⊤) (insert_item i) w
          tt
          (Sound-insert_item (λ k. s k + requested k items) i w.tables
            (Sound-mono _ _ w.tables h (λ k. omega arith))))
        (λ _ w' h'. Sound-insert_items items w' h')

module _ (s : Uuid → ℕ) where
  Sound-create :
      (b : Booking) (now : ℕ) (w : World Tables)
      → Sound (λ k. s k + requested k b.items) w.tables
      → Ensures (λ _. Sound s) (Sound (λ k. s k + requested k b.items)) (create b now w)
  unfolding create create_tx
  Sound-create b now w h =
      Ensures-atomic (λ _. Sound s) Before (create_tx b now) w h
        (Ensures-bind (λ _. Before) (λ _. Sound s) (λ _. ⊤) begin
          (λ _. exec (insert_booking b now) >> (insert_items b.items >> commit)) w
          (Ensures-exec Error (λ _. Before) (λ _. ⊤) (λ t. ok (tt, t)) w tt h)
          λ _ w' h'.
            Ensures-bind (λ _. Before) (λ _. Sound s) (λ _. ⊤) (exec (insert_booking b now))
              (λ _. insert_items b.items >> commit) w'
              (Ensures-exec Error (λ _. Before) (λ _. ⊤) (insert_booking b now) w' tt
                (Sound-insert_booking (λ k. s k + requested k b.items) b now w'.tables h'))
              λ _ w'' h''.
                Ensures-bind (λ _. Sound s) (λ _. Sound s) (λ _. ⊤) (insert_items b.items)
                  (λ _. commit) w'' (Sound-insert_items s b.items w'' h'')
                  λ _ w''' h'''.
                    Ensures-exec Error (λ _. Sound s) (λ _. ⊤) (λ t. ok (tt, t)) w''' tt h''')
    where
      Before : Tables → Type 0
      Before = Sound (λ k. s k + requested k b.items)

  -- `Reserve` after its loop, where the payment service accepts the transaction.
  Sound-book :
      (env : Env) (email : String) (items : List BookingItem) (res : Reservation) (w : World Tables)
      → ((k : Uuid) → requested k res.items ≡ requested k items)
      → env.pay (payment_request res email) ≡ ok tt
      → Sound (λ k. s k + requested k items) w.tables
      → Ensures (λ _. Sound s) (Sound s) (book env email items res w)
  unfolding book booking_for
  Sound-book env email items res w same paid h =
      Ensures-bind (Outcome (λ _. Sound s) Taken) (λ _. Sound s) (Sound s)
        (attempt (create (booking_for res) env.now))
        (λ c. created_or_rollback items c >> (payment >> pure res)) w
        (Ensures-attempt (λ _. Sound s) Taken (Sound s) (create (booking_for res) env.now) w
          (Ensures-mono (λ _. Sound s) (λ _. Sound s) _ Taken (create (booking_for res) env.now w)
            (Sound-create (booking_for res) env.now w
              (Sound-mono _ _ w.tables h (λ k. omega (arith, booked_items k, same k))))
            (λ _ _ h'. h')
            (λ t h'. Sound-mono _ _ t h' (λ k. omega (arith, booked_items k, same k)))))
        λ c w' h'.
          Ensures-bind (λ _. Sound s) (λ _. Sound s) (Sound s) (created_or_rollback items c)
            (λ _. payment >> pure res) w' (undo c w' h')
            λ _ w'' h''.
              Ensures-bind (λ _. Sound s) (λ _. Sound s) (Sound s) payment (λ _. pure res) w''
                (rw paid h'') (λ _ _ h'''. h''')
    where
      Taken : Tables → Type 0
      Taken = Sound (λ k. s k + requested k items)

      payment : Ticketing ⊤
      payment = paid_or_rollback res.booking_id items (env.pay (payment_request res email))

      booked_items : (k : Uuid) → requested k (booking_for res).items ≡ requested k res.items
      booked_items k = refl

      undo :
          (c : Result Error ⊤) (w' : World Tables)
          → Outcome (λ _. Sound s) Taken c w'.tables
          → Ensures (λ _. Sound s) (Sound s) (created_or_rollback items c w')
      undo (ok _) w' h' = h'
      undo (err e) w' h' =
          Ensures-bind (λ _. Sound s) (λ _. Sound s) (Sound s) (rollback_seats items) (λ _. raise e)
            w' (Sound-rollback_seats (Sound s) s items w' h') (λ _ _ h''. h'')
      undo (db_err e) w' h' =
          Ensures-bind (λ _. Sound s) (λ _. Sound s) (Sound s) (rollback_seats items)
            (λ _. raise_db e) w' (Sound-rollback_seats (Sound s) s items w' h') (λ _ _ h''. h'')

  Sound-reserve :
      (env : Env) (user : Uuid) (email : String) (event : Uuid) (items : List BookingItem)
      (w : World Tables)
      → ((req : PaymentRequest) → env.pay req ≡ ok tt)
      → Sound s w.tables
      → Ensures (λ _. Sound s) (Sound s) (reserve env user email event items w)
  unfolding reserve reservation
  Sound-reserve env user email event items w paid h =
      Ensures-bind (λ _. Sound s) (λ _. Sound s) (Sound s)
        (raise_if (is_empty items) invalid_quantity)
        (λ _. reserve_items items items >> book env email items res) w (some_items (is_empty items))
        λ _ w' h'.
          Ensures-bind (λ _. Sound (λ k. s k + requested k items)) (λ _. Sound s) (Sound s)
            (reserve_items items items) (λ _. book env email items res) w'
            (Sound-reserve_items s [] items w' (Sound-mono _ _ w'.tables h' (λ k. omega arith)))
            (λ _ w'' h''.
              Sound-book env email items res w'' (λ k. requested-fill env k 0 items) (paid _) h'')
    where
      res : Reservation
      res = reservation env user event items

      some_items :
          (empty : Bool) → Ensures (λ _. Sound s) (Sound s) (raise_if empty invalid_quantity w)
      some_items true = h
      some_items false = h

-- A reservation whose payment transaction is accepted, whichever statements fail on the way and
-- however it ends: where every item has its booking, and for every ticket type the free seats, the
-- seats that pending and confirmed bookings hold and a slack `s` fit into the quantity on sale, the
-- same holds after `Reserve`.
pub reserve-Sound :
    (s : Uuid → ℕ) (env : Env) (user : Uuid) (email : String) (event : Uuid)
    (items : List BookingItem) (w : World Tables)
    → ((req : PaymentRequest) → env.pay req ≡ ok tt)
    → Sound s w.tables
    → Sound s (reserve env user email event items w).1.tables
reserve-Sound s env user email event items w paid h =
    Ensures-tables (Sound s) (reserve env user email event items w)
      (Sound-reserve s env user email event items w paid h)
