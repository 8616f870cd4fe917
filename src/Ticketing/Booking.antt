-- ===== src/Ticketing/Booking.antt =====
-- service/ticketing/internal/application/booking: reservations and the transitions of bookings.
pub mod Reserve
pub mod Transitions
pub mod Totals
pub mod Redelivery
pub mod Confirming
