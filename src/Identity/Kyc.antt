-- ===== src/Identity/Kyc.antt =====
-- The parts of KycService that its operations share. The settings are a parameter.
use escrow_fx_marketplace.Common.{
  ℕ, ◌-◌, ◌*◌, Bool, true, false, ◌&&◌, Option, none, some, String, List, [], ◌∷◌, ◌++◌, length,
  leb, ltb, if◌then◌else◌,
}
use escrow_fx_marketplace.Domain.Errors.{precondition_failed}
use escrow_fx_marketplace.Domain.Enums.{KycStatus}
use escrow_fx_marketplace.Domain.Entities.{User}
use escrow_fx_marketplace.Domain.Identity.{
  KycVerification, KycVerificationStatus, KycProviderResult, ReviewEvent, ReviewEventType,
  is_pending, is_under_review,
}
use escrow_fx_marketplace.Store.Db.{
  Payload, user_kyc_verified, user_kyc_requires_review, user_kyc_rejected,
}
use escrow_fx_marketplace.Store.Action.{Action, ◌>>=◌, ◌>>◌, pure, reads, raise_if}
use escrow_fx_marketplace.Store.Users
use escrow_fx_marketplace.Store.Verifications
use escrow_fx_marketplace.Store.Verifications.{
  latest_for_user, list_submitted_since, list_by_status, get_by_provider_reference,
  get_latest_for_user,
}
use escrow_fx_marketplace.Store.Outbox.{publish}
use escrow_fx_marketplace.Identity.Decision.{review_reason, text_or}

-- The three settings. The source takes a negative one as 0.
pub record KycSettings : Type 0 where
  pub cooldown_minutes : ℕ
  pub max_attempts : ℕ
  pub window_hours : ℕ

abbrev pub minutes : ℕ → ℕ
minutes n = n * 60_000_000

abbrev pub too_soon : KycSettings → (now : ℕ) → Option KycVerification → Bool
too_soon settings now none = false
too_soon settings now (some latest) =
    ltb 0 settings.cooldown_minutes
    && leb (now - minutes settings.cooldown_minutes) latest.submitted_at

-- `_enforce_submission_controls`
unfoldable pub enforce_submission_controls : KycSettings → (user_id now : ℕ) → Action (Unit {0})
unfolding list_submitted_since
enforce_submission_controls settings user_id now = do
  latest ← reads (latest_for_user user_id)
  raise_if (too_soon settings now latest) precondition_failed
  recent ←
      list_submitted_since user_id (now - minutes (settings.window_hours * 60))
        settings.max_attempts
  raise_if
      (ltb 0 settings.max_attempts
        && ltb 0 settings.window_hours
        && leb settings.max_attempts (length recent))
      precondition_failed

abbrev pub is_kyc_verified : KycStatus → Bool
is_kyc_verified KycStatus.verified = true
is_kyc_verified _ = false

abbrev pub is_kyc_under_review : KycStatus → Bool
is_kyc_under_review KycStatus.requires_review = true
is_kyc_under_review _ = false

-- The user's status that goes with a verification's.
abbrev pub kyc_status_of : KycVerificationStatus → KycStatus
kyc_status_of KycVerificationStatus.pending = KycStatus.pending
kyc_status_of KycVerificationStatus.verified = KycStatus.verified
kyc_status_of KycVerificationStatus.rejected = KycStatus.rejected
kyc_status_of KycVerificationStatus.requires_review = KycStatus.requires_review

-- The event of a decision, with the reason that its branch gives.
abbrev pub decision_payload :
    User → KycVerification → KycVerificationStatus → (reason : String) → Payload
decision_payload user v KycVerificationStatus.requires_review reason =
    user_kyc_requires_review user.id v.id v.id_type v.provider reason
decision_payload user v KycVerificationStatus.rejected reason =
    user_kyc_rejected user.id v.id v.id_type v.provider reason
decision_payload user v _ reason = user_kyc_verified user.id v.id v.id_type v.provider

-- The user's row and the event of a decision.
unfoldable pub record_decision :
    User
    → KycVerification
    → KycVerificationStatus
    → (reason : String) → (now : ℕ) → Action (Unit {0})
record_decision user v status reason now = do
  _ ← Users.update (record user { kyc_status = kyc_status_of status; updated_at = now })
  publish (decision_payload user v status reason) user.id (some user.id)

-- The reason of the branch on a provider's result.
abbrev pub reason_of : KycProviderResult → String
reason_of result =
    if is_under_review result.status
    then review_reason result.field_match_summary
    else text_or result.rejection_reason "KYC verification was rejected."

-- `if ... VERIFIED: ... elif ... REQUIRES_REVIEW: ... elif ... REJECTED: ...`
unfoldable pub record_result :
    User → KycVerification → KycProviderResult → (now : ℕ) → Action (Unit {0})
unfolding record_decision
record_result user v result now =
    if is_pending result.status
    then pure tt
    else record_decision user v result.status (reason_of result) now

abbrev pub completed_when : KycVerificationStatus → (now : ℕ) → Option ℕ → Option ℕ
completed_when KycVerificationStatus.pending now otherwise = otherwise
completed_when _ now otherwise = some now

abbrev pub or_now : Option ℕ → ℕ → Option ℕ
or_now none now = some now
or_now (some t) now = some t

-- `_lock_verification_for_mutation`
unfoldable pub lock_verification : (verification_id : ℕ) → Action (User × KycVerification)
lock_verification verification_id = do
  snapshot ← Verifications.get verification_id
  user ← Users.get_for_update snapshot.user_id
  v ← Verifications.get_for_update snapshot.id
  pure (user, v)

-- `_append_review_event`
abbrev pub append_review_event :
    List ReviewEvent
    → ReviewEventType
    → (reviewer_user_id created_at : ℕ) → (decision : Option KycVerificationStatus)
    → (reason note : Option String) → List ReviewEvent
append_review_event events event_type reviewer_user_id created_at decision reason note =
    events
    ++ record {
      event_type = event_type;
      reviewer_user_id = reviewer_user_id;
      created_at = created_at;
      decision = decision;
      reason = reason;
      note = note;
    }
      ∷ []

-- The decided row of `approve_review`, and that of `reject_review`.
abbrev pub approved : KycVerification → (reviewer_user_id now : ℕ) → KycVerification
approved v reviewer_user_id now = record v {
  status = KycVerificationStatus.verified;
  provider_status = "approved_by_admin";
  review_events =
      append_review_event v.review_events ReviewEventType.decision reviewer_user_id now
        (some KycVerificationStatus.verified) none none;
  completed_at = or_now v.completed_at now;
  updated_at = now;
}

abbrev pub rejected :
    KycVerification → (reviewer_user_id : ℕ) (reason : String) (now : ℕ) → KycVerification
rejected v reviewer_user_id reason now = record v {
  status = KycVerificationStatus.rejected;
  provider_status = "rejected_by_admin";
  review_events =
      append_review_event v.review_events ReviewEventType.decision reviewer_user_id now
        (some KycVerificationStatus.rejected) (some reason) none;
  rejection_reason = some reason;
  completed_at = or_now v.completed_at now;
  updated_at = now;
}

abbrev pub noted :
    KycVerification → (reviewer_user_id : ℕ) (note : String) (now : ℕ) → KycVerification
noted v reviewer_user_id note now = record v {
  review_events =
      append_review_event v.review_events ReviewEventType.note reviewer_user_id now none none
        (some note);
  updated_at = now;
}
