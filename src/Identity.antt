-- ===== src/Identity.antt =====
-- Identity checks, app/services/kyc.py: the decision policy, the service over the verifications,
-- and what is proved of both.
pub mod Masking
pub mod Decision
pub mod Kyc
pub mod Reviews
pub mod Checks
pub mod Progress
pub mod Moves
pub mod Reviewed
pub mod Checked
pub mod Lifecycle
pub mod Applicants
