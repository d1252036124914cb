-- ===== src/Store.antt =====
-- The unit of work and the repositories, app/infrastructure/database/unit_of_work.py and
-- app/repositories/sqlalchemy.py, over tables that are lists of rows.
pub mod Db
pub mod Action
pub mod Ensures
pub mod Table
pub mod Users
pub mod References
pub mod Tokens
pub mod Verifications
pub mod Requests
pub mod Offers
pub mod Trades
pub mod Outbox
pub mod Idempotency
pub mod RateLimits
pub mod LockOrder
