-- ===== src/Lib.antt =====
-- ticketbus sells tickets with three services that share nothing but messages and one HTTP call: the
-- ticketing service reserves seats and books them, the payment service takes the money, the auth
-- service knows the users. A booking starts with `Reserve`, which takes the seats, writes the
-- booking and asks the payment service for a transaction. The gateway's webhooks and the expiry
-- poller settle that transaction, and the outbox tells the ticketing service, which confirms the
-- booking or gives its seats back. A cancelled event cancels its bookings in the one service and
-- refunds its payments in the other.
--
-- Base, Text, Table, Db and its children are shared. A service's database is a record of tables; a
-- table is a list of rows with a primary key (Table). An action (Db, for pkg/db and pgx) maps a world,
-- the tables and a list of faults, to a result and a world. Each statement takes one fault from the
-- list, and a statement with a fault fails and changes nothing: a theorem about all worlds is one
-- about every place where the database can fail. A transaction is `atomic`. Constraints of the
-- schemas under migrations are errors of the statements. A read of many rows whose loop is not followed
-- by `rows.Err()` is `query_rows`: one fault for each row, at which the list ends without an error.
-- Calls run one after another, but for the calls about events, the goroutines of the outbox worker and
-- those of a consumer, which are step relations and overlap. Db/Ensures has the rules of postconditions
-- that the proofs go through, Db/Keeps those for what an action leaves as it was.
--
-- Dto is pkg/dto, Http is pkg/http (response.go and context.go): an endpoint maps a world to a response
-- and a world. Outbox is pkg/outbox/outbox.go, and Outbox/Worker is pkg/outbox/worker.go: the
-- goroutines of a batch are a step relation, so its theorems speak of every interleaving; the broker
-- is a log. Counting, Delivery, Halting, Liveness and Order are the proofs about it.
--
-- Kafka is pkg/kafka/kafka.go: Consumer is the pool of goroutines behind `Consume`, again a step
-- relation, Delivery is about it, Topics is EnsureTopics and Creating is about that. Ticketing/Consumer
-- and Payment/Consumer are internal/kafka of the services, the handlers of their topics.
--
-- Ticketing is service/ticketing/internal. Domain is domain and migrations/ticketing; SeatCounter is
-- postgres/seat_counter.go and seat_reader.go; BookingRepo is postgres/booking_repo.go; Payment is
-- payment/client.go; Booking/Reserve and Booking/Transitions are application/booking, Reserve and the
-- handlers that StartConsumers registers. EventRepo is postgres/event_repo.go, Events is
-- application/event, and EventCalls splits its operations into the load of the event and the rest, which other
-- calls come between. Seats and its children have the accounting of seats, Lifecycle the states of an event, Capacity the size of a venue;
-- Booking/Redelivery, Confirming and Totals are about single operations.
-- EventHandlers and BookingHandlers are handler: every endpoint, from the decoded body to the answer;
-- Endpoints is what they show and whom they obey.
--
-- Payment is service/payment/internal. Domain is domain and migrations/payment; Repo is postgres;
-- Service, Webhook and Poller are application; Calls makes a history of them. Laws says what an
-- invariant of the tables must satisfy, one law for each kind of write, and its children follow every
-- handler down to its writes: Ledger, Settled and Unique each fill the laws with an invariant. Access,
-- Idempotence and Refunds are about single operations.
--
-- Auth is service/auth/internal. Domain is domain and migrations/auth; Repo is postgres; Service is
-- application with jwt/token_service.go and bcrypt/hasher.go; Handlers is handler. Calls makes a
-- history of the operations, and Laws says what an invariant must satisfy, as for the payments;
-- Accounts fills the laws. Registration, Authentic, Gateway, Rotation, Seeding and RoundTrip are about
-- single operations and their composition.
--
-- Ids are numbers that the environment draws, times are nanoseconds, and a call reads the clock once.
-- Amounts are the 64-bit patterns of Go's `int`, with the wrap-around written out. Other
-- queries fail as a whole or return all their rows. A gateway, the network, the clock and the random ids are fields
-- of an `Env`. Loops are recursions on their list, so no fuel is needed. Quantities are not negative,
-- which the HTTP handlers check. Columns of 32 bits refuse larger numbers.
--
-- Not modelled: the routes of HTTP, JSON and the format of times, request logging and metrics,
-- configuration, telemetry, the gateway adapters under service/payment/internal/processor, the
-- producer and the client code of Kafka and Redis, the parsing of RSA keys, the test doubles, and the
-- web application under apps. They are calls of libraries, or have no state of the services.
pub mod Base
pub mod Text
pub mod Table
pub mod Db
pub mod Dto
pub mod Outbox
pub mod Http
pub mod Ticketing
pub mod Payment
pub mod Auth
pub mod Kafka
