-- ===== src/Kafka.antt =====
-- pkg/kafka/kafka.go: the consumers and the creation of topics. The client library and the brokers are
-- outside the program.
pub mod Consumer
pub mod Delivery
pub mod Topics
pub mod Creating
mod Tests
