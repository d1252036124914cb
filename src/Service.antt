-- ===== src/Service.antt =====
-- The application services, app/services.
pub mod Outcome
pub mod Locks
pub mod Offers
pub mod Terms
pub mod Requests
pub mod Trades
pub mod Expiry
pub mod Replay
pub mod Accounts
pub mod Dispatch
pub mod Leases
pub mod RoundTrip
pub mod Cleanup
pub mod Preferences
