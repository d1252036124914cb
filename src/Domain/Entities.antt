-- ===== src/Domain/Entities.antt =====
-- app/domain/entities.py. Identifiers are UUIDs by their integer value; instants are whole
-- microseconds of UTC, so that `as_utc` is the identity.
use escrow_fx_marketplace.Common.{ℕ, Option, String}
use escrow_fx_marketplace.Domain.Decimal.{Number}
use escrow_fx_marketplace.Domain.Enums.{
  UserRole, UserStatus, KycStatus, RiskLevel, CurrencyStatus, CorridorStatus, ExchangeRequestStatus,
  ExchangeOfferStatus, TradeContractStatus, AccountAuditEventType,
}

pub record User : Type 0 where
  pub id : ℕ
  pub email : String
  pub password_hash : String
  pub phone : Option String
  pub country : String
  pub role : UserRole
  pub status : UserStatus
  pub kyc_status : KycStatus
  pub risk_level : RiskLevel
  pub email_verified_at : Option ℕ
  pub created_at : ℕ
  pub updated_at : ℕ

pub record Currency : Type 0 where
  pub id : ℕ
  pub code : String
  pub minor_unit : ℕ
  pub status : CurrencyStatus
  pub min_amount : Number
  pub max_amount : Number
  pub created_at : ℕ
  pub updated_at : ℕ

pub record Corridor : Type 0 where
  pub id : ℕ
  pub from_currency_id : ℕ
  pub to_currency_id : ℕ
  pub status : CorridorStatus
  pub funding_sla_minutes : ℕ
  pub fee_model_name : Option String
  pub created_at : ℕ
  pub updated_at : ℕ

pub record ExchangeRequest : Type 0 where
  pub id : ℕ
  pub relisted_from_request_id : Option ℕ
  pub creator_user_id : ℕ
  pub from_currency_id : ℕ
  pub to_currency_id : ℕ
  pub from_amount : Number
  pub preferred_rate : Number
  pub min_rate : Option Number
  pub status : ExchangeRequestStatus
  pub expires_at : ℕ
  pub created_at : ℕ
  pub updated_at : ℕ

pub record ExchangeOffer : Type 0 where
  pub id : ℕ
  pub request_id : ℕ
  pub offer_user_id : ℕ
  pub offered_rate : Number
  pub status : ExchangeOfferStatus
  pub expires_at : ℕ
  pub created_at : ℕ
  pub updated_at : ℕ

pub record TradeContract : Type 0 where
  pub id : ℕ
  pub request_id : ℕ
  pub accepted_offer_id : ℕ
  pub agreed_rate : Number
  pub reference_rate_snapshot : Option Number
  pub from_amount : Number
  pub to_amount : Number
  pub funding_deadline_at : ℕ
  pub status : TradeContractStatus
  pub created_at : ℕ
  pub updated_at : ℕ

-- The read models, with what their joins add to the row. The currency codes of the joined rows
-- are part of the projections; they are left to the currencies' identifiers in the row.
pub record ExchangeOfferDetails : Type 0 where
  pub offer : ExchangeOffer
  pub request_status : ExchangeRequestStatus
  pub request_from_amount : Number
  pub request_preferred_rate : Number
  pub request_expires_at : ℕ

pub record TradeContractDetails : Type 0 where
  pub trade : TradeContract
  pub requester_user_id : ℕ
  pub counterparty_user_id : ℕ

pub record AccountAuditEvent : Type 0 where
  pub id : ℕ
  pub subject_user_id : ℕ
  pub actor_user_id : ℕ
  pub event_type : AccountAuditEventType
  pub occurred_at : ℕ
