-- ===== src/Ticketing/Booking/Redelivery.antt =====
-- Payment messages that come again.
use ticketbus.Ticketing.BookingRepo
