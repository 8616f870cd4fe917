-- ===== src/Ticketing/Booking/Reserve.antt =====
-- booking/reserve_service.go. The clock, the drawn ids and the payment service's answer are fields
-- of `Env`; every other effect is a statement on the database.
use ticketbus.Base.{
  ℕ, suc, ◌+◌, ◌*◌, ◌%◌, Bool, true, false, not, Uuid, String, some, List, [], ◌∷◌, ⊤, ◌==◌,
  int_mod,
}
use ticketbus.Db.{
  Result, ok, err, db_err, pure, raise, raise_db, raise_if, attempt, ignore, done, ◌>>=◌, ◌>>◌,
}
use ticketbus.Ticketing.Domain.{
  Booking, BookingItem, pending, Reservation, Ticketing, Error, invalid_quantity, price_mismatch,
  no_seats_available,
}
use ticketbus.Ticketing.SeatCounter
use ticketbus.Ticketing.BookingRepo
use ticketbus.Ticketing.Payment.{PaymentRequest}

pub record Env : Type 0 where
  pub now : ℕ
  pub reservation_ttl : ℕ
  pub booking_id : Uuid
  pub item_id : ℕ → Uuid
  pub pay : PaymentRequest → Result Error ⊤

abbrev pub second : ℕ
second = 1000000000

-- `calculateTotal`, in the arithmetic of Go's `int`.
unfoldable pub total_from : ℕ → List BookingItem → ℕ
total_from acc [] = acc
total_from acc (i ∷ is) = total_from ((acc + i.unit_price_rupiah * i.quantity) % int_mod) is

unfoldable pub calculate_total : List BookingItem → ℕ
unfolding total_from
calculate_total = total_from 0

unfoldable pub rollback_seats : List BookingItem → Ticketing ⊤
rollback_seats [] = done
rollback_seats (i ∷ is) = do
  ignore (SeatCounter.release i.ticket_type_id i.quantity)
  rollback_seats is

-- The loop that releases the items before the failed one: it stops at the first item of the failed
-- item's ticket type.
unfoldable pub rollback_before : Uuid → List BookingItem → Ticketing ⊤
rollback_before failed [] = done
rollback_before failed (i ∷ is) = elim (i.ticket_type_id == failed) [
  | true ↦ done
  | false ↦ do ignore (SeatCounter.release i.ticket_type_id i.quantity); rollback_before failed is
]

abbrev pub seats_or_rollback : Uuid → List BookingItem → Result Error ⊤ → Ticketing ⊤
seats_or_rollback id items (ok _) = done
seats_or_rollback id items (err _) = do rollback_before id items; raise no_seats_available
seats_or_rollback id items (db_err _) = do rollback_before id items; raise no_seats_available

-- One round of the loop: the price check, then the seats.
unfoldable pub reserve_item : List BookingItem → BookingItem → Ticketing ⊤
reserve_item items i = do
  real ← SeatCounter.get_price i.ticket_type_id
  raise_if (not (i.unit_price_rupiah == real)) (price_mismatch real i.unit_price_rupiah)
  r ← attempt (SeatCounter.reserve i.ticket_type_id i.quantity)
  seats_or_rollback i.ticket_type_id items r

unfoldable pub reserve_items : List BookingItem → List BookingItem → Ticketing ⊤
reserve_items items [] = done
reserve_items items (i ∷ is) = do reserve_item items i; reserve_items items is

-- The ids and totals that the service writes into the items.
unfoldable pub fill : Env → ℕ → List BookingItem → List BookingItem
fill env k [] = []
fill env k (i ∷ is) =
    record i {
      id = env.item_id k;
      booking_id = env.booking_id;
      total_price_rupiah = i.unit_price_rupiah * i.quantity % int_mod;
    }
    ∷ fill env (suc k) is

unfoldable pub reservation : Env → Uuid → Uuid → List BookingItem → Reservation
reservation env user event items = record {
  booking_id = env.booking_id;
  user_id = user;
  event_id = event;
  items = fill env 0 items;
  total_rupiah = calculate_total items;
  status = pending;
  expires_at = env.now + env.reservation_ttl * second;
  created_at = env.now;
}

unfoldable pub booking_for : Reservation → Booking
booking_for res = record {
  id = res.booking_id;
  user_id = res.user_id;
  event_id = res.event_id;
  status = pending;
  expires_at = some res.expires_at;
  total_rupiah = 0;
  items = res.items;
  created_at = 0;
}

-- `if err := s.bookingRepo.Create(…); err != nil`
abbrev pub created_or_rollback : List BookingItem → Result Error ⊤ → Ticketing ⊤
created_or_rollback items (ok _) = done
created_or_rollback items (err e) = do rollback_seats items; raise e
created_or_rollback items (db_err e) = do rollback_seats items; raise_db e

-- `if err := s.paymentClient.InitiateTxnForBooking(…); err != nil`
abbrev pub paid_or_rollback : Uuid → List BookingItem → Result Error ⊤ → Ticketing ⊤
paid_or_rollback id items (ok _) = done
paid_or_rollback id items (err e) = do ignore (BookingRepo.delete id); rollback_seats items; raise e
paid_or_rollback id items (db_err e) = do
  ignore (BookingRepo.delete id)
  rollback_seats items
  raise_db e

abbrev pub payment_request : Reservation → String → PaymentRequest
payment_request res email = record {
  booking_id = res.booking_id;
  event_id = res.event_id;
  user_id = res.user_id;
  email = email;
  amount_rupiah = res.total_rupiah;
  expires_at = res.expires_at;
}

-- `Reserve` after its loop.
unfoldable pub book : Env → String → List BookingItem → Reservation → Ticketing Reservation
book env email items res = do
  c ← attempt (BookingRepo.create (booking_for res) env.now)
  created_or_rollback items c
  paid_or_rollback res.booking_id items (env.pay (payment_request res email))
  pure res

abbrev pub is_empty : List BookingItem → Bool
is_empty [] = true
is_empty (_ ∷ _) = false

unfoldable pub reserve : Env → Uuid → String → Uuid → List BookingItem → Ticketing Reservation
reserve env user email event items = do
  raise_if (is_empty items) invalid_quantity
  reserve_items items items
  book env email items (reservation env user event items)
