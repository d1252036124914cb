-- ===== src/Market.antt =====
-- The marketplace as a whole: what every mutation of app/services keeps of the requests and their
-- offers.
pub mod Rows
pub mod Invariant
pub mod RequestWrites
pub mod OfferWrites
pub mod Frame
pub mod Reads
pub mod Brackets
pub mod CloseOffer
pub mod CreateOffer
pub mod UpdateOffer
pub mod RequestOps
pub mod EditRequest
pub mod SettleRows
pub mod Settle
pub mod LockedOffers
pub mod Settled
pub mod CancelRequest
pub mod Settlement
pub mod AcceptOffer
pub mod Sweep
pub mod Swept
pub mod Expiry
pub mod Lifecycle
pub mod Accepting
pub mod Accepted
pub mod Guards
pub mod OfferGuards
pub mod RequestGuards
pub mod LockedUsers
pub mod AccountGuards
pub mod CreateOfferGuard
pub mod EditGuards
pub mod ValidTerms
pub mod CreateRequestGuard
pub mod RelistGuard
pub mod UpdateOfferGuard
