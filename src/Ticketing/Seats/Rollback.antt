-- ===== src/Ticketing/Seats/Rollback.antt =====
-- The two rollbacks of a reservation return only seats that it took.
use ticketbus.Base.{
  ℕ, ◌+◌, true, Uuid, inl, inr, List, [], ◌∷◌, ◌++◌, arith, ◌==◌, Bool-cases, ==-self,
}
use ticketbus.Db.{World, exec, pure, ignore}
use ticketbus.Db.Ensures.{Ensures, Ensures-exec, Ensures-bind, Ensures-ignore}
use ticketbus.Ticketing.Domain.{Tables, BookingItem, Error}
use ticketbus.Ticketing.SeatCounter
use ticketbus.Ticketing.SeatCounter.{
  release_seats, reserve_seats, give_seats, take_seats, price_of, not_found, need_row, get_price,
}
use ticketbus.Ticketing.Booking.Reserve.{rollback_seats, rollback_before}
use ticketbus.Ticketing.Seats.{Sound, Sound-mono, at_type, requested, Room-give}
use ticketbus.Ticketing.Seats.Settle.{Runs-update_ticket}

-- Seats of the slack go back, or stay lost where the release fails.
pub Sound-release :
    (G : Tables → Type 0) (s : Uuid → ℕ) (id : Uuid) (n : ℕ) (w : World Tables)
    → Sound (λ k. s k + at_type id n k) w.tables
    → Ensures (λ _. Sound s) G (ignore (SeatCounter.release id n) w)
unfolding SeatCounter.release release_seats
Sound-release G s id n w h =
    Ensures-ignore (λ _. Sound s) (Sound s) G (SeatCounter.release id n) w
      (Ensures-bind (λ _. Sound s) (λ _. Sound s) (Sound s) (exec (release_seats id n))
        (λ _. pure tt) w
        (Ensures-exec Error (λ _. Sound s) (Sound s) (release_seats id n) w weaker
          (Runs-update_ticket (λ _. Sound s) id (λ _. true) (give_seats n) w.tables weaker
            λ r there passes. record {
              room = Room-give s id n w.tables h.room;
              linked = h.linked;
            }))
        (λ _ _ h'. h'))
      (λ _ _ h'. h')
  where
    weaker : Sound s w.tables
    weaker = Sound-mono _ s w.tables h (λ k. omega arith)

module _ (G : Tables → Type 0) (s : Uuid → ℕ) where
  pub Sound-rollback_seats :
      (items : List BookingItem) (w : World Tables)
      → Sound (λ k. s k + requested k items) w.tables
      → Ensures (λ _. Sound s) G (rollback_seats items w)
  unfolding rollback_seats
  Sound-rollback_seats [] w h = Sound-mono _ s w.tables h (λ k. omega arith)
  Sound-rollback_seats (i ∷ items) w h =
      Ensures-bind (λ _. Sound (λ k. s k + requested k items)) (λ _. Sound s) G
        (ignore (SeatCounter.release i.ticket_type_id i.quantity)) (λ _. rollback_seats items) w
        (Sound-release G (λ k. s k + requested k items) i.ticket_type_id i.quantity w
          (Sound-mono _ _ w.tables h (λ k. omega arith)))
        (λ _ w' h'. Sound-rollback_seats items w' h')

  -- The rollback stops before the failed item, so it returns no seat that was not taken.
  pub Sound-rollback_before :
      (taken : List BookingItem) (i : BookingItem) (rest : List BookingItem) (w : World Tables)
      → Sound (λ k. s k + requested k taken) w.tables
      → Ensures (λ _. Sound s) G (rollback_before i.ticket_type_id (taken ++ i ∷ rest) w)
  unfolding rollback_before
  Sound-rollback_before [] i rest w h =
      rw (==-self i.ticket_type_id, Ensures, rollback_before)
        (Sound-mono _ s w.tables h (λ k. omega arith))
  Sound-rollback_before (x ∷ taken) i rest w h =
      elim (Bool-cases (x.ticket_type_id == i.ticket_type_id)) [
        | inl same ↦
            rw (same, Ensures, rollback_before) (Sound-mono _ s w.tables h (λ k. omega arith))
        | inr other ↦
            rw (other, Ensures, rollback_before)
              (Ensures-bind (λ _. Sound (λ k. s k + requested k taken)) (λ _. Sound s) G
                (ignore (SeatCounter.release x.ticket_type_id x.quantity))
                (λ _. rollback_before i.ticket_type_id (taken ++ i ∷ rest)) w
                (Sound-release G (λ k. s k + requested k taken) x.ticket_type_id x.quantity w
                  (Sound-mono _ _ w.tables h (λ k. omega arith)))
                (λ _ w' h'. Sound-rollback_before taken i rest w' h'))
      ]
