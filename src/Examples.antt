-- ===== src/Examples.antt =====
-- A small marketplace, and each theorem at it.
pub mod Base
pub mod Mutations
pub mod Parts
pub mod Limiting
pub mod Listing
pub mod Identities
