-- ===== src/Payment.antt =====
-- The payment service: transactions, gateway sessions, webhooks, refunds.
pub mod Domain
pub mod Repo
pub mod Service
pub mod Webhook
pub mod Poller
pub mod Consumer
pub mod Handlers
pub mod Calls
pub mod Laws
pub mod Ledger
pub mod Settled
pub mod Unique
pub mod Access
pub mod Refunds
pub mod Idempotence
pub mod Endpoints
mod Tests
mod EndpointTests
