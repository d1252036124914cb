-- ===== src/Domain/Enums.antt =====
-- app/domain/enums.py, with the `is` tests that the services make.
use escrow_fx_marketplace.Common.{Bool, true, false}

pub data UserRole : Type 0 where
  customer admin operations : UserRole

pub data UserStatus : Type 0 where
  active suspended inactive : UserStatus

pub data KycStatus : Type 0 where
  pending requires_review verified rejected : KycStatus

pub data RiskLevel : Type 0 where
  low medium high : RiskLevel

pub data CurrencyStatus : Type 0 where
  active inactive : CurrencyStatus

pub data CorridorStatus : Type 0 where
  active inactive : CorridorStatus

pub data ExchangeRequestStatus : Type 0 where
  request_open offer_pending terms_locked cancelled expired : ExchangeRequestStatus

pub data ExchangeOfferStatus : Type 0 where
  active accepted rejected expired withdrawn : ExchangeOfferStatus

pub data TradeContractStatus : Type 0 where
  terms_locked awaiting_dual_funding one_leg_funded dual_funded releasing : TradeContractStatus
  settled expired_refunding cancelled disputed : TradeContractStatus

pub data OutboxEventStatus : Type 0 where
  pending processing delivered failed dead : OutboxEventStatus

pub data IdempotencyRecordStatus : Type 0 where
  processing completed : IdempotencyRecordStatus

pub data AccountAuditEventType : Type 0 where
  profile_updated self_deactivated admin_suspended admin_reactivated : AccountAuditEventType

-- `status is UserStatus.ACTIVE`
abbrev pub user_is_active : UserStatus → Bool
user_is_active UserStatus.active = true
user_is_active _ = false

-- `kyc_status is KycStatus.VERIFIED`
abbrev pub kyc_is_verified : KycStatus → Bool
kyc_is_verified KycStatus.verified = true
kyc_is_verified _ = false

abbrev pub currency_is_active : CurrencyStatus → Bool
currency_is_active CurrencyStatus.active = true
currency_is_active CurrencyStatus.inactive = false

abbrev pub corridor_is_active : CorridorStatus → Bool
corridor_is_active CorridorStatus.active = true
corridor_is_active CorridorStatus.inactive = false

abbrev pub request_is_open : ExchangeRequestStatus → Bool
request_is_open ExchangeRequestStatus.request_open = true
request_is_open _ = false

abbrev pub request_is_pending : ExchangeRequestStatus → Bool
request_is_pending ExchangeRequestStatus.offer_pending = true
request_is_pending _ = false

abbrev pub request_is_expired : ExchangeRequestStatus → Bool
request_is_expired ExchangeRequestStatus.expired = true
request_is_expired _ = false

abbrev pub trade_is_terms_locked : TradeContractStatus → Bool
trade_is_terms_locked TradeContractStatus.terms_locked = true
trade_is_terms_locked _ = false
