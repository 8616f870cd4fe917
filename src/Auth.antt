-- ===== src/Auth.antt =====
-- service/auth: users, passwords and tokens.
pub mod Domain
pub mod Repo
pub mod Service
pub mod Handlers
pub mod Calls
pub mod Rules
pub mod Registration
pub mod Authentic
pub mod Gateway
pub mod Rotation
pub mod Seeding
pub mod RoundTrip
mod Tests
pub mod Laws
pub mod Accounts
