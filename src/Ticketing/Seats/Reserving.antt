-- ===== src/Ticketing/Seats/Reserving.antt =====
-- A reservation keeps the seat accounting, as long as the payment service accepts its transaction.
use ticketbus.Base.{
  ℕ, suc, zero, ◌+◌, ◌≤◌, Bool, true, false, not, Uuid, List, [], ◌∷◌, ◌++◌, ⊤, arith, leb, ◌==◌,
}
use mathlib.Core.List.{append_assoc}
use ticketbus.Db.{
  World, Result, ok, err, db_err, DbError, exec, raise, raise_if, attempt, query_row, ◌>>=◌, ◌>>◌,
}
use ticketbus.Db.Ensures.{
  Ensures, Outcome, Ensures-exec, Ensures-bind, Ensures-query_row, Ensures-attempt,
}
use ticketbus.Ticketing.Domain.{
  Tables, BookingItem, Error, Ticketing, no_seats_available, price_mismatch,
}
use ticketbus.Ticketing.SeatCounter
use ticketbus.Ticketing.SeatCounter.{
  release_seats, reserve_seats, give_seats, take_seats, price_of, not_found, need_row, get_price,
}
use ticketbus.Ticketing.Booking.Reserve.{
  rollback_before, seats_or_rollback, reserve_item, reserve_items,
}
use ticketbus.Ticketing.Seats.{
  Sound, Sound-mono, at_type, requested, requested-append, Room-take, leb→le,
}
use ticketbus.Ticketing.Seats.Settle.{Runs-update_ticket}
use ticketbus.Ticketing.Seats.Rollback.{Sound-rollback_before}

module _ (s : Uuid → ℕ) where
  Sound-get_price :
      (t : Uuid → ℕ) (id : Uuid) (w : World Tables)
      → ((k : Uuid) → s k ≤ t k)
      → Sound t w.tables
      → Ensures (λ _. Sound t) (Sound s) (get_price id w)
  unfolding get_price
  Sound-get_price t id w le h =
      Ensures-bind (Outcome (λ _. Sound t) (Sound t)) (λ _. Sound t) (Sound s)
        (attempt (query_row (price_of id))) not_found w
        (Ensures-attempt (λ _. Sound t) (Sound t) (Sound s) (query_row (price_of id)) w
          (Ensures-query_row Error _ _ _ w h (λ _ _. h)))
        passed_on
    where
      passed_on :
          (r : Result Error ℕ) (w' : World Tables)
          → Outcome (λ _. Sound t) (Sound t) r w'.tables
          → Ensures (λ _. Sound t) (Sound s) (not_found r w')
      passed_on (ok n) w' h' = h'
      passed_on (err e) w' h' = Sound-mono t s w'.tables h' le
      passed_on (db_err DbError.no_rows) w' h' = Sound-mono t s w'.tables h' le
      passed_on (db_err _) w' h' = Sound-mono t s w'.tables h' le

  -- The counter gives its seats to the slack, or nothing happens.
  Sound-reserve :
      (t : Uuid → ℕ) (id : Uuid) (n : ℕ) (w : World Tables)
      → Sound t w.tables
      → Ensures (λ _. Sound (λ k. t k + at_type id n k)) (Sound t) (SeatCounter.reserve id n w)
  unfolding SeatCounter.reserve reserve_seats
  Sound-reserve t id n w h =
      Ensures-bind Taken (λ _. Sound (λ k. t k + at_type id n k)) (Sound t)
        (exec (reserve_seats id n)) need_row w
        (Ensures-exec Error Taken (Sound t) (reserve_seats id n) w h (
          Runs-update_ticket Taken id (λ r. leb n r.available_seat) (take_seats n) w.tables h
            λ r there enough. record {
              room = Room-take t id n w.tables r there (leb→le n r.available_seat enough) h.room;
              linked = h.linked;
            }))
        counted
    where
      Taken : ℕ → Tables → Type 0
      Taken zero = Sound t
      Taken (suc _) = Sound (λ k. t k + at_type id n k)

      counted :
          (m : ℕ) (w' : World Tables)
          → Taken m w'.tables
          → Ensures (λ _. Sound (λ k. t k + at_type id n k)) (Sound t) (need_row m w')
      counted zero w' h' = h'
      counted (suc m) w' h' = h'

  -- One round of the loop, after the items `taken`.
  Sound-reserve_item :
      (taken : List BookingItem) (i : BookingItem) (rest : List BookingItem) (w : World Tables)
      → Sound (λ k. s k + requested k taken) w.tables
      → Ensures
          (λ _. Sound (λ k. s k + requested k (taken ++ i ∷ [])))
          (Sound s)
          (reserve_item (taken ++ i ∷ rest) i w)
  unfolding reserve_item
  Sound-reserve_item taken i rest w h =
      Ensures-bind (λ _. Sound held_back) After (Sound s) (get_price i.ticket_type_id)
        (λ real. raise_if (not (i.unit_price_rupiah == real)) (mismatch real) >> take_or_undo) w
        (Sound-get_price held_back i.ticket_type_id w (λ k. omega arith) h)
        λ real w' h'.
          Ensures-bind (λ _. Sound held_back) After (Sound s)
            (raise_if (not (i.unit_price_rupiah == real)) (mismatch real)) (λ _. take_or_undo) w'
            (checked (not (i.unit_price_rupiah == real)) real w' h')
            λ _ w'' h''.
              Ensures-bind (Outcome Taken (Sound held_back)) After (Sound s)
                (attempt (SeatCounter.reserve i.ticket_type_id i.quantity))
                (seats_or_rollback i.ticket_type_id (taken ++ i ∷ rest)) w''
                (Ensures-attempt Taken (Sound held_back) (Sound s)
                  (SeatCounter.reserve i.ticket_type_id i.quantity) w''
                  (Sound-reserve held_back i.ticket_type_id i.quantity w'' h''))
                undone
    where
      held_back : Uuid → ℕ
      held_back k = s k + requested k taken

      After : ⊤ → Tables → Type 0
      After _ = Sound (λ k. s k + requested k (taken ++ i ∷ []))

      Taken : ⊤ → Tables → Type 0
      Taken _ = Sound (λ k. held_back k + at_type i.ticket_type_id i.quantity k)

      mismatch : ℕ → Error
      mismatch real = price_mismatch real i.unit_price_rupiah

      take_or_undo : Ticketing ⊤
      take_or_undo =
          attempt (SeatCounter.reserve i.ticket_type_id i.quantity)
          >>= seats_or_rollback i.ticket_type_id (taken ++ i ∷ rest)

      checked :
          (wrong : Bool) (real : ℕ) (w' : World Tables)
          → Sound held_back w'.tables
          → Ensures (λ _. Sound held_back) (Sound s) (raise_if wrong (mismatch real) w')
      checked true real w' h' = Sound-mono held_back s w'.tables h' (λ k. omega arith)
      checked false real w' h' = h'

      undo :
          (w' : World Tables)
          → Sound held_back w'.tables
          → Ensures After (Sound s) (
              (rollback_before i.ticket_type_id (taken ++ i ∷ rest) >> raise no_seats_available) w')
      undo w' h' =
          Ensures-bind (λ _. Sound s) After (Sound s)
            (rollback_before i.ticket_type_id (taken ++ i ∷ rest)) (λ _. raise no_seats_available)
            w' (Sound-rollback_before (Sound s) s taken i rest w' h') (λ _ _ h''. h'')

      undone :
          (r : Result Error ⊤) (w' : World Tables)
          → Outcome Taken (Sound held_back) r w'.tables
          → Ensures After (Sound s) (seats_or_rollback i.ticket_type_id (taken ++ i ∷ rest) r w')
      undone (ok _) w' h' =
          Sound-mono _ _ w'.tables h' (λ k. omega (arith, requested-append k taken (i ∷ [])))
      undone (err _) w' h' = undo w' h'
      undone (db_err _) w' h' = undo w' h'

  pub Sound-reserve_items :
      (taken rest : List BookingItem) (w : World Tables)
      → Sound (λ k. s k + requested k taken) w.tables
      → Ensures
          (λ _. Sound (λ k. s k + requested k (taken ++ rest)))
          (Sound s)
          (reserve_items (taken ++ rest) rest w)
  unfolding reserve_items
  Sound-reserve_items taken [] w h =
      Sound-mono _ _ w.tables h (λ k. omega (arith, requested-append k taken []))
  Sound-reserve_items taken (i ∷ rest) w h =
      Ensures-bind (λ _. Sound (λ k. s k + requested k (taken ++ i ∷ [])))
        (λ _. Sound (λ k. s k + requested k (taken ++ i ∷ rest))) (Sound s)
        (reserve_item (taken ++ i ∷ rest) i) (λ _. reserve_items (taken ++ i ∷ rest) rest) w
        (Sound-reserve_item taken i rest w h)
        (λ _ w' h'.
          rw (← append_assoc taken (i ∷ []) rest)
            (Sound-reserve_items (taken ++ i ∷ []) rest w' h'))
