-- ===== src/Limits.antt =====
-- The rate limiter, app/infrastructure/rate_limiting.py: its policies, the enforcement over the
-- buckets of Store/RateLimits, and what is proved of both.
pub mod Policies
pub mod Client
pub mod Windows
pub mod Enforce
pub mod Bounds
pub mod Refusals
pub mod Failures
pub mod Fallback
pub mod Steps
pub mod Counter
