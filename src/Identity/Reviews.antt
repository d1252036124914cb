-- ===== src/Identity/Reviews.antt =====
-- The operations of KycService on a verification that is under review.
use escrow_fx_marketplace.Common.{ℕ, not, String}
use escrow_fx_marketplace.Domain.Errors.{precondition_failed}
use escrow_fx_marketplace.Domain.Identity.{KycVerification, KycVerificationStatus, is_under_review}
use escrow_fx_marketplace.Store.Action.{Action, ◌>>=◌, ◌>>◌, pure, raise_if, utc_now, commit}
use escrow_fx_marketplace.Store.Verifications
use escrow_fx_marketplace.Identity.Kyc.{
  lock_verification, record_decision, approved, rejected, noted,
}

-- `approve_review`
unfoldable pub approve_review : (verification_id reviewer_user_id : ℕ) → Action KycVerification
unfolding lock_verification record_decision
approve_review verification_id reviewer_user_id = do
  now ← utc_now
  (user, v) ← lock_verification verification_id
  raise_if (not (is_under_review v.status)) precondition_failed
  updated ← Verifications.update (approved v reviewer_user_id now)
  record_decision user updated KycVerificationStatus.verified "" now
  commit
  pure updated

-- `add_review_note`
unfoldable pub add_review_note :
    (verification_id reviewer_user_id : ℕ) (note : String) → Action KycVerification
unfolding lock_verification
add_review_note verification_id reviewer_user_id note = do
  now ← utc_now
  (user, v) ← lock_verification verification_id
  raise_if (not (is_under_review v.status)) precondition_failed
  updated ← Verifications.update (noted v reviewer_user_id note now)
  commit
  pure updated

-- `reject_review`
unfoldable pub reject_review :
    (verification_id reviewer_user_id : ℕ) (reason : String) → Action KycVerification
unfolding lock_verification record_decision
reject_review verification_id reviewer_user_id reason = do
  now ← utc_now
  (user, v) ← lock_verification verification_id
  raise_if (not (is_under_review v.status)) precondition_failed
  updated ← Verifications.update (rejected v reviewer_user_id reason now)
  record_decision user updated KycVerificationStatus.rejected reason now
  commit
  pure updated
