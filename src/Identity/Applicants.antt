-- ===== src/Identity/Applicants.antt =====
-- What a submission requires of the state in which it commits.
use escrow_fx_marketplace.Common.{
  ℕ, ◌-◌, ◌*◌, ◌≡◌, refl, true, false, ◌&&◌, some, String, List, arith, ltb, leb, length, inl,
}
use escrow_fx_marketplace.Domain.Errors.{Result, ok}
use escrow_fx_marketplace.Domain.Enums.{user_is_active}
use escrow_fx_marketplace.Domain.Entities.{User}
use escrow_fx_marketplace.Domain.Identity.{KycIdType, KycProviderRequest, KycProviderResult}
use escrow_fx_marketplace.Store.Db.{Db}
use escrow_fx_marketplace.Store.Action.{Env, Session, transact}
use escrow_fx_marketplace.Store.Ensures.{
  Ensures, IsSerial, Ensures-then, fetch-Ensures, raise_if-Ensures, utc_now-Ensures, reads-Ensures,
  raise_if_last-Ensures, transact-Ensures, lift-Ensures,
}
use escrow_fx_marketplace.Store.Users
use escrow_fx_marketplace.Store.Verifications
use escrow_fx_marketplace.Store.Verifications.{latest_for_user, submitted_since}
use escrow_fx_marketplace.Market.Guards.{IsGuarded, Ensures-IsGuarded}
use escrow_fx_marketplace.Identity.Kyc.{
  KycSettings, minutes, too_soon, enforce_submission_controls, is_kyc_verified, is_kyc_under_review,
}
use escrow_fx_marketplace.Identity.Checks.{Submission, provider_request, submit_identity_check}
use text.Mathlib.Text.{◌==◌ as str_eq}

-- The subject has consented, is an active Nigerian user neither verified nor under review, has
-- waited since the last attempt, has attempts left in the window, and the provider has answered.
pub record CanSubmit (settings : KycSettings)
    (verify : KycProviderRequest → Result KycProviderResult) (s : Submission) (now : ℕ) (d : Db)
    : Type 0 where
  pub user : User
  pub user_row : Users.by_id s.user_id d ≡ some user
  pub consent : s.subject_consent ≡ true
  pub active : user_is_active user.status ≡ true
  pub nigerian : str_eq user.country "NG" ≡ true
  pub not_verified : is_kyc_verified user.kyc_status ≡ false
  pub not_under_review : is_kyc_under_review user.kyc_status ≡ false
  pub rested : too_soon settings now (latest_for_user user.id d) ≡ false
  pub attempts_left :
      (ltb 0 settings.max_attempts
        && ltb 0 settings.window_hours
        && leb settings.max_attempts (
            length (
              submitted_since user.id
                (now - minutes (settings.window_hours * 60))
                settings.max_attempts
                d)))
      ≡ false
  pub result : KycProviderResult
  pub answered : verify (provider_request user.id s) ≡ ok result

module _ (env : Env) (serial : IsSerial env) where
  controls-Ensures :
      (I : Db → Type 0) (settings : KycSettings) (user_id now : ℕ) (s : Session)
      → I s.base
      → Ensures I
          (λ _ e.
            (e ≡ s.db)
            × (too_soon settings now (latest_for_user user_id s.db) ≡ false)
            × ((ltb 0 settings.max_attempts
                  && ltb 0 settings.window_hours
                  && leb settings.max_attempts (
                      length (
                        submitted_since user_id
                          (now - minutes (settings.window_hours * 60))
                          settings.max_attempts
                          s.db)))
                ≡ false))
          (enforce_submission_controls settings user_id now env s)
  unfolding enforce_submission_controls Verifications.list_submitted_since
  controls-Ensures I settings user_id now s i = reads-Ensures _ _ s (
      raise_if-Ensures _ _ _ s i λ rested.
        reads-Ensures _ _ s (raise_if_last-Ensures env _ _ s i λ left. (refl, rested, left)))

  -- When transactions run one after the other, a submission commits nothing unless the subject has
  -- consented, is an active Nigerian user neither verified nor under review, is past the cooldown
  -- and below the limit of attempts, and the provider has answered.
  pub submit_identity_check-IsGuarded :
      (hash : KycIdType → List ℕ → String) (settings : KycSettings)
      (verify : KycProviderRequest → Result KycProviderResult) (s : Submission) (d : Db)
      → IsGuarded
          (CanSubmit settings verify s (env.clock 0) d)
          d
          (transact (submit_identity_check hash settings verify s) env d).1
  unfolding submit_identity_check Users.get
  submit_identity_check-IsGuarded hash settings verify s d =
      transact-Ensures {I = IsGuarded (CanSubmit settings verify s (env.clock 0) d) d}
        (λ _ _. Unit {0}) _ env d
        (raise_if-Ensures _ _ _ _ (inl refl) λ consent. utc_now-Ensures _ _ (
          fetch-Ensures _ _ _ _ (inl refl) λ user row. raise_if-Ensures _ _ _ _ (inl refl) λ active.
            raise_if-Ensures _ _ _ _ (inl refl) λ nigerian.
              raise_if-Ensures _ _ _ _ (inl refl) λ not_verified.
                raise_if-Ensures _ _ _ _ (inl refl) λ not_under_review.
                  Ensures-then (enforce_submission_controls settings user.id _) _ _
                    (controls-Ensures _ settings user.id _ _ (inl refl))
                    λ t i (e, rested, left). lift-Ensures (verify _) _ t i λ result answered.
                      Ensures-IsGuarded _ (record {
                        user = user;
                        user_row = row;
                        consent = ground (arith, consent);
                        active = ground (arith, active);
                        nigerian = ground (arith, nigerian);
                        not_verified = not_verified;
                        not_under_review = not_under_review;
                        rested = rested;
                        attempts_left = left;
                        result = result;
                        answered = answered;
                      })))
