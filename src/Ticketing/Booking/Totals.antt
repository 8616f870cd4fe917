-- ===== src/Ticketing/Booking/Totals.antt =====
-- What a reservation costs.
use ticketbus.Base.{ℕ, ◌+◌, ◌*◌, ◌%◌, ◌<◌, ◌≡◌, List, [], ◌∷◌, arith, int_mod}
use ticketbus.Ticketing.Domain.{BookingItem}
use ticketbus.Ticketing.Booking.Reserve.{total_from, calculate_total}

abbrev pub cost : List BookingItem → ℕ
cost [] = 0
cost (i ∷ is) = i.unit_price_rupiah * i.quantity + cost is

total_from-cost :
    (acc : ℕ) (is : List BookingItem) → acc + cost is < int_mod → total_from acc is ≡ acc + cost is
unfolding total_from
total_from-cost acc [] fits = omega arith
total_from-cost acc (i ∷ is) fits =
    omega
      (arith, total_from-cost ((acc + i.unit_price_rupiah * i.quantity) % int_mod) is (omega arith))

-- Where it fits into 64 bits, the total of a reservation is the sum of the items' prices times their
-- quantities, without wrap-around.
calculate_total-cost : (is : List BookingItem) → cost is < int_mod → calculate_total is ≡ cost is
unfolding calculate_total
calculate_total-cost is fits = omega (arith, total_from-cost 0 is (omega arith))
