-- ===== src/Store/Db.antt =====
-- The database, and what one transaction holds of it.
use escrow_fx_marketplace.Common.{ℕ, List, [], Option, String}
use escrow_fx_marketplace.Domain.Enums.{OutboxEventStatus, IdempotencyRecordStatus}
use escrow_fx_marketplace.Domain.Decimal.{Number}
use escrow_fx_marketplace.Domain.Entities.{
  User, Currency, Corridor, ExchangeRequest, ExchangeOffer, TradeContract, ExchangeOfferDetails,
  TradeContractDetails, AccountAuditEvent,
}
use escrow_fx_marketplace.Domain.Identity.{AuthToken, KycIdType, KycProvider, KycVerification}

-- A customer-facing projection as it is returned and stored for replay.
pub data Response : Type 0 where
  request_details : ExchangeRequest → Response
  offer_details : ExchangeOfferDetails → Response
  trade_details : TradeContractDetails → Response

pub record IdempotencyRecord : Type 0 where
  pub id : ℕ
  pub principal_user_id : ℕ
  pub operation_scope : String
  pub key_hash : String
  pub request_fingerprint : String
  pub status : IdempotencyRecordStatus
  pub response_status_code : Option ℕ
  pub response_body : Option Response
  pub created_at : ℕ
  pub updated_at : ℕ
  pub expires_at : ℕ
  pub completed_at : Option ℕ

-- `reason` of a rejected offer and of a cancelled trade.
pub data Reason : Type 0 where
  competing_offer_accepted request_cancelled funding_deadline_expired : Reason

-- The event types that the modelled services publish, each with its payload. Identifiers,
-- numbers and instants stand for the texts into which the payload prints them; a token stands for
-- the link that carries it.
pub data Payload : Type 0 where
  user_profile_updated : (user_id : ℕ) (email : String) (changed_at : ℕ) → Payload
  user_account_deactivated : (user_id : ℕ) (email : String) (deactivated_at : ℕ) → Payload
  user_account_suspended : (user_id : ℕ) (email : String) (changed_at : ℕ) → Payload
  user_account_reactivated : (user_id : ℕ) (email : String) (changed_at : ℕ) → Payload
  user_email_verification_requested :
      (user_id : ℕ) (email token : String) (expires_at : ℕ) → Payload
  user_password_reset_requested : (user_id : ℕ) (email token : String) (expires_at : ℕ) → Payload
  user_password_reset_completed : (user_id : ℕ) (email : String) (completed_at : ℕ) → Payload
  user_password_changed : (user_id : ℕ) (email : String) (changed_at : ℕ) → Payload
  user_kyc_submitted :
      (user_id verification_id : ℕ) (id_type : KycIdType) (provider : KycProvider) → Payload
  user_kyc_verified :
      (user_id verification_id : ℕ) (id_type : KycIdType) (provider : KycProvider) → Payload
  user_kyc_requires_review :
      (user_id verification_id : ℕ) (id_type : KycIdType) (provider : KycProvider) (reason : String)
      → Payload
  user_kyc_rejected :
      (user_id verification_id : ℕ) (id_type : KycIdType) (provider : KycProvider) (reason : String)
      → Payload
  exchange_request_created :
      (request_id creator_user_id : ℕ) (from_currency_code to_currency_code : String)
      (from_amount preferred_rate : Number) (min_rate : Option Number)
      → Payload
  exchange_request_cancelled : (request_id requester_user_id : ℕ) → Payload
  exchange_request_expired : (request_id : ℕ) → Payload
  exchange_request_reopened : (request_id : ℕ) → Payload
  exchange_request_relisted :
      (request_id original_request_id creator_user_id : ℕ)
      (from_currency_code to_currency_code : String) (from_amount preferred_rate : Number)
      (min_rate : Option Number) (expires_at : ℕ)
      → Payload
  exchange_offer_created : (offer_id request_id offer_user_id : ℕ) (offered_rate : Number) → Payload
  exchange_offer_updated : (offer_id request_id offer_user_id : ℕ) (offered_rate : Number) → Payload
  exchange_offer_withdrawn : (offer_id request_id offer_user_id : ℕ) → Payload
  exchange_offer_rejected :
      (offer_id request_id : ℕ) (requester_user_id : Option ℕ) (reason : Option Reason) → Payload
  exchange_offer_accepted : (offer_id request_id trade_contract_id : ℕ) → Payload
  exchange_offer_expired : (offer_id request_id : ℕ) → Payload
  trade_contract_locked : (trade_contract_id request_id accepted_offer_id : ℕ) → Payload
  trade_contract_cancelled : (trade_contract_id request_id : ℕ) (reason : Reason) → Payload
  marketplace_expiry_completed :
      (expired_requests expired_offers reopened_requests cancelled_trades : ℕ) → Payload

pub record OutboxEvent : Type 0 where
  pub id : ℕ
  pub payload : Payload
  pub aggregate_id : ℕ
  pub recipient_user_id : Option ℕ
  pub status : OutboxEventStatus
  pub attempt_count : ℕ
  pub next_attempt_at : Option ℕ
  pub last_error : Option String
  pub created_at : ℕ
  pub updated_at : ℕ

pub record RateLimitBucket : Type 0 where
  pub id : ℕ
  pub policy_name : String
  pub key_hash : String
  pub window_started_at : ℕ
  pub request_count : ℕ
  pub expires_at : ℕ
  pub created_at : ℕ
  pub updated_at : ℕ

pub record Db : Type 0 where
  pub users : List User
  pub audit_events : List AccountAuditEvent
  pub currencies : List Currency
  pub corridors : List Corridor
  pub requests : List ExchangeRequest
  pub offers : List ExchangeOffer
  pub trades : List TradeContract
  pub outbox : List OutboxEvent
  pub idempotency : List IdempotencyRecord
  pub buckets : List RateLimitBucket
  pub email_tokens : List AuthToken
  pub reset_tokens : List AuthToken
  pub verifications : List KycVerification

abbrev pub empty_db : Db
empty_db = record {
  users = [];
  audit_events = [];
  currencies = [];
  corridors = [];
  requests = [];
  offers = [];
  trades = [];
  outbox = [];
  idempotency = [];
  buckets = [];
  email_tokens = [];
  reset_tokens = [];
  verifications = [];
}
