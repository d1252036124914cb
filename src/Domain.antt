-- ===== src/Domain.antt =====
-- The domain layer, app/domain: enumerations, value objects, entities and lifecycle predicates.
pub mod Enums
pub mod Decimal
pub mod Entities
pub mod Identity
pub mod Errors
pub mod Lifecycle
pub mod Values
pub mod Rounding
