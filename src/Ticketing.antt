-- ===== src/Ticketing.antt =====
-- The ticketing service: events, seat counters, bookings.
pub mod Domain
pub mod SeatCounter
pub mod BookingRepo
pub mod EventRepo
pub mod Events
pub mod EventCalls
pub mod Lifecycle
pub mod Capacity
pub mod Payment
pub mod Booking
pub mod Seats
pub mod Consumer
pub mod EventHandlers
pub mod BookingHandlers
pub mod Endpoints
mod Tests
mod EndpointTests
