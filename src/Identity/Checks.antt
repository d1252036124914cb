-- ===== src/Identity/Checks.antt =====
-- The operations of KycService on results of the provider.
use escrow_fx_marketplace.Common.{
  ℕ, suc, Bool, true, false, not, ◌||◌, none, some, String, List, [], ◌∷◌, if◌then◌else◌,
}
use escrow_fx_marketplace.Domain.Errors.{Result, invariant_violation, precondition_failed}
use escrow_fx_marketplace.Domain.Enums.{user_is_active}
use escrow_fx_marketplace.Domain.Entities.{User}
use escrow_fx_marketplace.Domain.Identity.{
  KycVerification, KycVerificationStatus, KycIdType, KycProviderRequest, KycProviderResult,
  is_pending,
}
use escrow_fx_marketplace.Store.Db.{user_kyc_submitted}
use escrow_fx_marketplace.Store.Action.{
  Action, ◌>>=◌, ◌>>◌, pure, lift, raise_if, utc_now, uuid4, commit,
}
use escrow_fx_marketplace.Store.Users
use escrow_fx_marketplace.Store.Verifications
use escrow_fx_marketplace.Store.Verifications.{
  list_by_status, get_by_provider_reference, get_latest_for_user,
}
use escrow_fx_marketplace.Store.Outbox.{publish}
use escrow_fx_marketplace.Identity.Masking.{mask_identifier}
use escrow_fx_marketplace.Identity.Decision.{apply_decision_policy}
use escrow_fx_marketplace.Identity.Kyc.{
  KycSettings, enforce_submission_controls, is_kyc_verified, is_kyc_under_review, record_result,
  completed_when, lock_verification,
}
use text.Mathlib.Text.{◌==◌ as str_eq}

-- `get_status`
unfoldable pub get_status : (user_id : ℕ) → Action KycVerification
get_status user_id = get_latest_for_user user_id

-- What `submit_identity_check` is given.
pub record Submission : Type 0 where
  pub user_id : ℕ
  pub id_type : KycIdType
  pub id_number : List ℕ
  pub first_name : String
  pub last_name : String
  pub date_of_birth : ℕ
  pub subject_consent : Bool

abbrev pub provider_request : (user_id : ℕ) → Submission → KycProviderRequest
provider_request user_id s = record {
  user_id = user_id;
  id_type = s.id_type;
  id_number = s.id_number;
  first_name = s.first_name;
  last_name = s.last_name;
  date_of_birth = s.date_of_birth;
}

-- The row of a submission. `identifier_hash` is what `hash_identifier` returns.
abbrev pub submitted :
    (id user_id : ℕ)
    → Submission
    → (identifier_hash : String) → KycProviderResult
    → (now : ℕ) → KycVerification
submitted id user_id s identifier_hash result now = record {
  id = id;
  user_id = user_id;
  provider = result.provider;
  provider_reference_id = result.provider_reference_id;
  id_type = s.id_type;
  masked_identifier = mask_identifier s.id_number;
  identifier_hash = identifier_hash;
  status = result.status;
  provider_status = result.provider_status;
  field_match_summary = result.field_match_summary;
  review_events = [];
  rejection_reason = result.rejection_reason;
  consented_at = now;
  submitted_at = now;
  completed_at = completed_when result.status now none;
  created_at = now;
  updated_at = now;
}

-- The row after a provider's result.
abbrev pub refreshed : KycVerification → KycProviderResult → (now : ℕ) → KycVerification
refreshed v result now = record v {
  status = result.status;
  provider_status = result.provider_status;
  field_match_summary = result.field_match_summary;
  rejection_reason = result.rejection_reason;
  completed_at = completed_when result.status now v.completed_at;
  updated_at = now;
}

-- `_apply_provider_result`, behind its two returns.
unfoldable pub apply_result :
    Bool → User → KycVerification → KycProviderResult → Action (KycVerification × Bool)
unfolding record_result
apply_result true user v result = pure (v, false)
apply_result false user v result = do
  now ← utc_now
  updated ← Verifications.update (refreshed v result now)
  record_result user updated result now
  pure (updated, true)

-- `_apply_provider_result`
unfoldable pub apply_provider_result :
    (verification_id : ℕ) → KycProviderResult → Action (KycVerification × Bool)
unfolding lock_verification apply_result
apply_provider_result verification_id result = do
  (user, v) ← lock_verification verification_id
  apply_result (not (is_pending v.status) || is_pending (apply_decision_policy result).status) user
      v (apply_decision_policy result)

-- `process_youverify_webhook`: the payload's parser is YouverifyKycProvider's.
unfoldable pub process_youverify_webhook :
    Result String → (KycIdType → Result KycProviderResult) → Action KycVerification
unfolding apply_provider_result
process_youverify_webhook provider_reference_id result_from_webhook = do
  reference ← lift provider_reference_id
  v ← get_by_provider_reference reference
  result ← lift (result_from_webhook v.id_type)
  (updated, applied) ← apply_provider_result v.id result
  commit
  pure updated

-- The provider, app/integrations/youverify.py: what its two calls return or raise.
module _ (retrieve_identity : String → KycIdType → Result KycProviderResult) where
  -- The loop of `reconcile_pending`, with the number of completed verifications.
  unfoldable pub reconcile : List KycVerification → (completed : ℕ) → Action ℕ
  unfolding apply_provider_result
  reconcile [] completed = pure completed
  reconcile (v ∷ vs) completed = do
    result ← lift (retrieve_identity v.provider_reference_id v.id_type)
    (updated, applied) ← apply_provider_result v.id result
    reconcile vs (if applied then suc completed else completed)

  -- `reconcile_pending`
  unfoldable pub reconcile_pending : (batch_size : ℕ) → Action ℕ
  unfolding reconcile
  reconcile_pending batch_size = do
    vs ← list_by_status KycVerificationStatus.pending batch_size
    completed ← reconcile vs 0
    commit
    pure completed

-- The tests that a submission makes of the user's row, before and after the provider's call.
unfoldable pub check_applicant : User → Action (Unit {0})
check_applicant user = do
  raise_if (not (user_is_active user.status)) precondition_failed
  raise_if (is_kyc_verified user.kyc_status) precondition_failed
  raise_if (is_kyc_under_review user.kyc_status) precondition_failed

module _ (hash_identifier : KycIdType → List ℕ → String) where
  -- The writes of a submission.
  unfoldable pub save_submission :
      User → Submission → KycProviderResult → (now : ℕ) → Action KycVerification
  unfolding record_result
  save_submission user s result now = do
    id ← uuid4
    v ←
        Verifications.add
          (submitted id user.id s (hash_identifier s.id_type s.id_number) result now)
    publish (user_kyc_submitted user.id v.id s.id_type result.provider) user.id (some user.id)
    record_result user v result now
    commit
    pure v

  -- `submit_identity_check`
  module _ (settings : KycSettings)
      (verify_identity : KycProviderRequest → Result KycProviderResult) where
    unfoldable pub submit_identity_check : Submission → Action KycVerification
    unfolding enforce_submission_controls check_applicant save_submission
    submit_identity_check s = do
      raise_if (not s.subject_consent) invariant_violation
      now ← utc_now
      applicant ← Users.get s.user_id
      raise_if (not (user_is_active applicant.status)) precondition_failed
      raise_if (not (str_eq applicant.country "NG")) invariant_violation
      raise_if (is_kyc_verified applicant.kyc_status) precondition_failed
      raise_if (is_kyc_under_review applicant.kyc_status) precondition_failed
      enforce_submission_controls settings applicant.id now
      result ← lift (verify_identity (provider_request applicant.id s))
      user ← Users.get_for_update applicant.id
      check_applicant user
      save_submission user s (apply_decision_policy result) now
