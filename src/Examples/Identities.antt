-- ===== src/Examples/Identities.antt =====
-- The theorems about authentication and identity checks.
use escrow_fx_marketplace.Common.{◌≡◌, ◌↔◌, refl, ap, none, some, [], ◌∷◌, true, arith}
use escrow_fx_marketplace.Domain.Errors.{Result, ok, err, precondition_failed}
use escrow_fx_marketplace.Domain.Entities.{User}
use escrow_fx_marketplace.Domain.Identity.{
  AuthToken, KycProvider, KycIdType, KycVerificationStatus, KycProviderResult, KycProviderRequest,
  FieldMatchSummary, KycVerification, is_verified,
}
use escrow_fx_marketplace.Store.Db.{Db}
use escrow_fx_marketplace.Store.Action.{transact, begin}
use escrow_fx_marketplace.Market.Guards.{IsGuarded}
use escrow_fx_marketplace.Auth.Tokens.{Security, reset_password, forgot_password}
use escrow_fx_marketplace.Auth.Silence.{forgot_password-silent}
use escrow_fx_marketplace.Auth.Sessions.{login_user}
use escrow_fx_marketplace.Auth.Recovery.{renewed, reset_password-login}
use escrow_fx_marketplace.Auth.SingleUse.{reset_password-once}
use escrow_fx_marketplace.Identity.Kyc.{KycSettings}
use escrow_fx_marketplace.Identity.Checks.{Submission, submit_identity_check}
use escrow_fx_marketplace.Identity.Decision.{
  apply_decision_policy, apply_decision_policy-verified, IsFullMatch,
}
use escrow_fx_marketplace.Identity.Reviews.{approve_review}
use escrow_fx_marketplace.Identity.Progress.{Progress}
use escrow_fx_marketplace.Identity.Lifecycle.{here, next, approve, KycReach-Progress}
use escrow_fx_marketplace.Identity.Applicants.{CanSubmit, submit_identity_check-IsGuarded}
use escrow_fx_marketplace.Examples.Base.{env, late_env, late_serial, serial, user, market}

abbrev security : Security
security = record {
  hash_password = λ p. p;
  verify_password = λ _ _. true;
  token_urlsafe = λ _. "t";
  hash_auth_token = λ t. t;
  email_verification_minutes = 60;
  password_reset_minutes = 60;
}

abbrev reset_token : AuthToken
reset_token = record {
  id = 80;
  user_id = 1;
  token_hash = "t";
  expires_at = 5000;
  consumed_at = none;
  created_at = 0;
  updated_at = 0;
}

abbrev verified_user : User
verified_user = record (user 1 "one") { email_verified_at = some 1 }

abbrev accounts : Db
accounts = record market {
  users = verified_user ∷ user 2 "two" ∷ [];
  reset_tokens = reset_token ∷ [];
}

reset_password-login_example :
    ((transact (reset_password security "t" "new") env accounts).0 ≡ ok tt)
    × ((transact
          (login_user security "one" "new")
          late_env
          (transact (reset_password security "t" "new") env accounts).1).0
        ≡ ok (renewed security 1000 "new" verified_user))
reset_password-login_example =
    reset_password-login security env serial accounts "t" "new" reset_token verified_user refl refl
      refl (refl, (refl, tt)) refl late_env refl refl

abbrev after_reset : Db
after_reset = (transact (reset_password security "t" "new") env accounts).1

has_reset : transact (reset_password security "t" "new") env accounts ≡ (ok tt, after_reset)
has_reset =
    ap (λ r. (r, after_reset))
      (reset_password-login security env serial accounts "t" "new" reset_token verified_user refl
        refl refl (refl, (refl, tt)) refl late_env refl refl).0

reset_password-once_example :
    transact (reset_password security "t" "other") late_env after_reset
    ≡ (err precondition_failed, after_reset)
reset_password-once_example =
    reset_password-once security env late_env serial late_serial accounts after_reset "t"
      (omega arith) "new" "other" has_reset

abbrev no_flags : FieldMatchSummary
no_flags = record { flag = λ _. some true; policy_reason = none; required_matches = none }

abbrev result : KycProviderResult
result = record {
  provider = KycProvider.local;
  provider_reference_id = "r";
  status = KycVerificationStatus.verified;
  provider_status = "ok";
  field_match_summary = no_flags;
  rejection_reason = none;
}

apply_decision_policy-verified_example :
    (is_verified (apply_decision_policy result).status ≡ true) ↔ (
      (is_verified result.status ≡ true)
      × IsFullMatch result.field_match_summary
      × (apply_decision_policy result ≡ result))
apply_decision_policy-verified_example = apply_decision_policy-verified result

abbrev under_review : KycVerification
under_review = record {
  id = 85;
  user_id = 1;
  provider = KycProvider.local;
  provider_reference_id = "r";
  id_type = KycIdType.bvn;
  masked_identifier = [];
  identifier_hash = "h";
  status = KycVerificationStatus.requires_review;
  provider_status = "ok";
  field_match_summary = no_flags;
  review_events = [];
  rejection_reason = none;
  consented_at = 0;
  submitted_at = 0;
  completed_at = some 0;
  created_at = 0;
  updated_at = 0;
}

abbrev reviews : Db
reviews = record market { verifications = under_review ∷ [] }

abbrev after_approval : Db
after_approval = (transact (approve_review 85 4) env reviews).1

KycReach-Progress_example : Progress reviews after_approval
KycReach-Progress_example =
    KycReach-Progress reviews after_approval (next here (approve env serial 85 4 refl))

abbrev submission : Submission
submission = record {
  user_id = 1;
  id_type = KycIdType.bvn;
  id_number = 49 ∷ 50 ∷ 51 ∷ 52 ∷ 53 ∷ 54 ∷ [];
  first_name = "A";
  last_name = "B";
  date_of_birth = 0;
  subject_consent = true;
}

abbrev kyc_settings : KycSettings
kyc_settings = record { cooldown_minutes = 10; max_attempts = 5; window_hours = 24 }

abbrev answer : KycProviderRequest → Result KycProviderResult
answer _ = ok result

submit_identity_check-IsGuarded_example :
    IsGuarded
      (CanSubmit kyc_settings answer submission 1000 reviews)
      reviews
      (transact (submit_identity_check (λ _ _. "h") kyc_settings answer submission) env reviews).1
submit_identity_check-IsGuarded_example =
    submit_identity_check-IsGuarded env serial (λ _ _. "h") kyc_settings answer submission reviews

forgot_password-silent_example : (forgot_password security "one" env (begin market)).0 ≡ ok tt
forgot_password-silent_example = forgot_password-silent security env (begin market) refl refl "one"
