-- ===== src/Domain/Identity.antt =====
-- The entities of authentication and identity checks: app/domain/entities.py, the enums of
-- app/domain/enums.py, and the provider's data of app/integrations/youverify.py.
use escrow_fx_marketplace.Common.{ℕ, Bool, true, false, Option, String, List}

-- `EmailVerificationToken` and `PasswordResetToken`, which have the same fields.
pub record AuthToken : Type 0 where
  pub id : ℕ
  pub user_id : ℕ
  pub token_hash : String
  pub expires_at : ℕ
  pub consumed_at : Option ℕ
  pub created_at : ℕ
  pub updated_at : ℕ

pub data KycProvider : Type 0 where
  local youverify : KycProvider

pub data KycIdType : Type 0 where
  bvn nin vnin : KycIdType

pub data KycVerificationStatus : Type 0 where
  pending verified rejected requires_review : KycVerificationStatus

-- What the policy decision adds under `policy`: the three flags.
pub record RequiredMatches : Type 0 where
  pub first_name : Option Bool
  pub last_name : Option Bool
  pub date_of_birth : Option Bool

-- `field_match_summary`: of the provider's dictionary what the service reads, the Boolean under a
-- key and the text under `policy` and `reason`; and what the service adds to it.
pub record FieldMatchSummary : Type 0 where
  pub flag : String → Option Bool
  pub policy_reason : Option String
  pub required_matches : Option RequiredMatches

-- An entry of `review_events`.
pub data ReviewEventType : Type 0 where
  decision note : ReviewEventType

pub record ReviewEvent : Type 0 where
  pub event_type : ReviewEventType
  pub reviewer_user_id : ℕ
  pub created_at : ℕ
  pub decision : Option KycVerificationStatus
  pub reason : Option String
  pub note : Option String

-- Texts are lists of code points where the service takes them apart.
pub record KycVerification : Type 0 where
  pub id : ℕ
  pub user_id : ℕ
  pub provider : KycProvider
  pub provider_reference_id : String
  pub id_type : KycIdType
  pub masked_identifier : List ℕ
  pub identifier_hash : String
  pub status : KycVerificationStatus
  pub provider_status : String
  pub field_match_summary : FieldMatchSummary
  pub review_events : List ReviewEvent
  pub rejection_reason : Option String
  pub consented_at : ℕ
  pub submitted_at : ℕ
  pub completed_at : Option ℕ
  pub created_at : ℕ
  pub updated_at : ℕ

-- `KycProviderRequest`
pub record KycProviderRequest : Type 0 where
  pub user_id : ℕ
  pub id_type : KycIdType
  pub id_number : List ℕ
  pub first_name : String
  pub last_name : String
  pub date_of_birth : ℕ

-- `KycProviderResult`
pub record KycProviderResult : Type 0 where
  pub provider : KycProvider
  pub provider_reference_id : String
  pub status : KycVerificationStatus
  pub provider_status : String
  pub field_match_summary : FieldMatchSummary
  pub rejection_reason : Option String

abbrev pub is_pending : KycVerificationStatus → Bool
is_pending KycVerificationStatus.pending = true
is_pending _ = false

abbrev pub is_verified : KycVerificationStatus → Bool
is_verified KycVerificationStatus.verified = true
is_verified _ = false

abbrev pub is_under_review : KycVerificationStatus → Bool
is_under_review KycVerificationStatus.requires_review = true
is_under_review _ = false
