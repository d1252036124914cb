-- ===== src/Identity/Checked.antt =====
-- The results of the provider move statuses forward alone.
use escrow_fx_marketplace.Common.{
  ℕ, ◌≡◌, refl, sym, subst, Bool, true, false, not, some, String, List, [], ◌∷◌, suc, if◌then◌else◌,
  ◌||◌,
}
use escrow_fx_marketplace.Domain.Errors.{Result}
use escrow_fx_marketplace.Domain.Entities.{User}
use escrow_fx_marketplace.Domain.Identity.{
  KycVerification, KycVerificationStatus, KycIdType, KycProviderResult, KycProviderRequest,
  is_pending,
}
use escrow_fx_marketplace.Store.Db.{Db}
use escrow_fx_marketplace.Store.Action.{Env, Session, transact}
use escrow_fx_marketplace.Store.Ensures.{
  IsSerial, Ensures-bind, Ensures-then, fetch-Ensures, raise_if-Ensures, utc_now-Ensures,
  uuid4-Ensures, reads-Ensures, pure-Ensures, lift-Ensures, commit-Ensures, transact-Ensures,
  raise_if_last-Ensures, lift_last-Ensures,
}
use escrow_fx_marketplace.Store.Users
use escrow_fx_marketplace.Store.Verifications
use escrow_fx_marketplace.Store.Verifications.{
  verification_by_id, save_verification, list_by_status, get_by_provider_reference,
}
use escrow_fx_marketplace.Store.Outbox.{publish}
use escrow_fx_marketplace.Market.LockedUsers.{lock_user}
use escrow_fx_marketplace.Identity.Kyc.{
  KycSettings, enforce_submission_controls, lock_verification, record_result,
}
use escrow_fx_marketplace.Identity.Progress.{
  Becomes, Progress, Progress-refl, Progress-trans, Progress-same, save-Progress, add-Progress,
}
use escrow_fx_marketplace.Identity.Moves.{
  add-Ensures, update-Ensures, publish-verifications, record_result-verifications,
  lock_verification-Ensures,
}
use escrow_fx_marketplace.Identity.Checks.{
  Submission, submitted, refreshed, apply_result, apply_provider_result, process_youverify_webhook,
  reconcile, reconcile_pending, check_applicant, save_submission, submit_identity_check,
}
use escrow_fx_marketplace.Identity.Reviewed.{Moves}
use escrow_fx_marketplace.Identity.Decision.{apply_decision_policy}

module _ (d : Db) (env : Env) (serial : IsSerial env) where
  -- Applying a result of the provider, in a transaction that has only moved statuses forward.
  apply_provider_result-Moves :
      (id : ℕ) (result : KycProviderResult) (s : Session)
      → Progress d s.base
      → Progress d s.db
      → Moves d env serial (apply_provider_result id result env s)
  unfolding apply_provider_result
  apply_provider_result-Moves id result s i p =
      Ensures-bind (lock_verification id) _ s
        (lock_verification-Ensures (Progress d) env serial id s i)
        λ q t i' (e, found).
          by_test q.0 q.1 (apply_decision_policy result)
            (not (is_pending q.1.status) || is_pending (apply_decision_policy result).status) refl t
            i' (subst (Progress d) (sym e) p)
            (subst (λ x. verification_by_id q.1.id x ≡ some q.1) (sym e) found)
    where
      becomes :
          (a b : KycVerificationStatus) → (not (is_pending a) || is_pending b) ≡ false → Becomes a b
      becomes KycVerificationStatus.pending b h = tt
      becomes KycVerificationStatus.verified b h = cc
      becomes KycVerificationStatus.rejected b h = cc
      becomes KycVerificationStatus.requires_review b h = cc

      by_test :
          (user : User) (v : KycVerification) (r : KycProviderResult) (test : Bool)
          → (not (is_pending v.status) || is_pending r.status) ≡ test
          → (t : Session) → Progress d t.base
          → Progress d t.db
          → verification_by_id v.id t.db ≡ some v
          → Moves d env serial (apply_result test user v r env t)
      by_test user v r true h t i p found = unfold apply_result in pure-Ensures env _ t i p
      by_test user v r false h t i p found =
          unfold apply_result in
          utc_now-Ensures _ t (
            Ensures-bind (Verifications.update (refreshed v r (env.clock t.ticks))) _ _
              (update-Ensures (Progress d) env (refreshed v r (env.clock t.ticks)) _ i)
              λ u x i' (_, e).
                Ensures-then (record_result user u r (env.clock t.ticks)) _ x
                  (record_result-verifications (Progress d) env user u r (env.clock t.ticks) x i')
                  λ y i'' same. pure-Ensures env _ y i'' (
                    Progress-same d x.db y.db
                      (Progress-trans d t.db x.db p (
                        subst (Progress t.db) (sym e) (
                          save-Progress t.db v (refreshed v r (env.clock t.ticks)) found
                            (becomes v.status r.status h))))
                      same))

  pub process_youverify_webhook-Progress :
      (reference : Result String) (result : KycIdType → Result KycProviderResult)
      → Progress d (transact (process_youverify_webhook reference result) env d).1
  unfolding process_youverify_webhook get_by_provider_reference
  process_youverify_webhook-Progress reference result =
      transact-Ensures {I = Progress d} (λ _ e. Progress d e) _ env d
        (lift-Ensures reference _ _ (Progress-refl d) λ text _.
          Ensures-bind {P = λ _ e. Progress d e} (get_by_provider_reference text) _ _
            (reads-Ensures _ _ _ (
              lift_last-Ensures env (Verifications.sole _) _ (Progress-refl d)
                λ v _. Progress-refl d))
            λ v s i p. lift-Ensures (result v.id_type) _ s i λ r _.
              Ensures-bind (apply_provider_result v.id r) _ s
                (apply_provider_result-Moves v.id r s i p)
                λ q t i' p'. commit-Ensures _ t (pure-Ensures env q.0 _ p' p'))

  module _ (retrieve : String → KycIdType → Result KycProviderResult) where
    reconcile-Moves :
        (vs : List KycVerification) (completed : ℕ) (s : Session)
        → Progress d s.base
        → Progress d s.db
        → Moves d env serial (reconcile retrieve vs completed env s)
    unfolding reconcile
    reconcile-Moves [] completed s i p = pure-Ensures env completed s i p
    reconcile-Moves (v ∷ vs) completed s i p =
        lift-Ensures (retrieve v.provider_reference_id v.id_type) _ s i λ r _.
          Ensures-bind (apply_provider_result v.id r) _ s (apply_provider_result-Moves v.id r s i p)
            λ q t i' p'. reconcile-Moves vs (if q.1 then suc completed else completed) t i' p'

    pub reconcile_pending-Progress :
        (batch_size : ℕ) → Progress d (transact (reconcile_pending retrieve batch_size) env d).1
    unfolding reconcile_pending list_by_status
    reconcile_pending-Progress batch_size =
        transact-Ensures {I = Progress d} (λ _ e. Progress d e) _ env d
          (reads-Ensures _ _ _ (
            Ensures-bind (reconcile retrieve _ 0) _ _
              (reconcile-Moves _ 0 _ (Progress-refl d) (Progress-refl d))
              λ n t i p. commit-Ensures _ t (pure-Ensures env n _ p p)))

  check_applicant-Moves :
      (user : User) (s : Session)
      → Progress d s.base
      → Progress d s.db
      → Moves d env serial (check_applicant user env s)
  unfolding check_applicant
  check_applicant-Moves user s i p =
      raise_if-Ensures _ _ _ s i
        λ _. raise_if-Ensures _ _ _ s i λ _. raise_if_last-Ensures env _ _ s i λ _. p

  controls-Moves :
      (settings : KycSettings) (user_id now : ℕ) (s : Session)
      → Progress d s.base
      → Progress d s.db
      → Moves d env serial (enforce_submission_controls settings user_id now env s)
  unfolding enforce_submission_controls Verifications.list_submitted_since
  controls-Moves settings user_id now s i p = reads-Ensures _ _ s (
      raise_if-Ensures _ _ _ s i
        λ _. reads-Ensures _ _ s (raise_if_last-Ensures env _ _ s i λ _. p))

  module _ (hash : KycIdType → List ℕ → String) where
    abbrev row : Session → User → Submission → KycProviderResult → ℕ → KycVerification
    row s user submission result now =
        submitted (env.uuid s.draws) user.id submission
          (hash submission.id_type submission.id_number) result now

    save_submission-Moves :
        (user : User) (submission : Submission) (result : KycProviderResult) (now : ℕ) (s : Session)
        → Progress d s.base
        → Progress d s.db
        → Moves d env serial (save_submission hash user submission result now env s)
    unfolding save_submission
    save_submission-Moves user submission result now s i p = uuid4-Ensures _ s (
        Ensures-bind (Verifications.add _) _ _ (add-Ensures (Progress d) env _ _ i) λ v t i' (w, e).
          let p' = Progress-trans d s.db t.db p (
            subst (Progress s.db) (sym e) (add-Progress s.db (row s user submission result now))) in
          Ensures-then (publish _ user.id (some user.id)) _ t
            (publish-verifications (Progress d) env _ user.id (some user.id) t i')
            λ x j same.
              Ensures-then (record_result user v result now) _ x
                (record_result-verifications (Progress d) env user v result now x j)
                λ y j' same'.
                  let q = Progress-same d x.db y.db (Progress-same d t.db x.db p' same) same' in
                  commit-Ensures _ y (pure-Ensures env v _ q q))

    pub submit_identity_check-Progress :
        (settings : KycSettings) (verify : KycProviderRequest → Result KycProviderResult)
        (submission : Submission)
        → Progress d (transact (submit_identity_check hash settings verify submission) env d).1
    unfolding submit_identity_check Users.get
    submit_identity_check-Progress settings verify submission =
        transact-Ensures {I = Progress d} (λ _ e. Progress d e) _ env d
          (raise_if-Ensures _ _ _ _ (Progress-refl d) λ _. utc_now-Ensures _ _ (
            fetch-Ensures _ _ _ _ (Progress-refl d) λ applicant _.
              raise_if-Ensures _ _ _ _ (Progress-refl d) λ _.
                raise_if-Ensures _ _ _ _ (Progress-refl d) λ _.
                  raise_if-Ensures _ _ _ _ (Progress-refl d) λ _.
                    raise_if-Ensures _ _ _ _ (Progress-refl d) λ _.
                      Ensures-then (enforce_submission_controls settings applicant.id _) _ _
                        (controls-Moves settings applicant.id _ _ (Progress-refl d)
                          (Progress-refl d))
                        λ s i p. lift-Ensures (verify _) _ s i λ result _.
                          Ensures-bind (Users.get_for_update applicant.id) _ s
                            (lock_user env serial (Progress d) applicant.id s i)
                            λ user t i' (e, row).
                              Ensures-then (check_applicant user) _ t
                                (check_applicant-Moves user t i' (subst (Progress d) (sym e) p))
                                λ x j q. save_submission-Moves user submission _ _ x j q))
