-- ===== src/Identity/Reviewed.antt =====
-- The operations on a review move its status forward alone.
use escrow_fx_marketplace.Common.{ℕ, ◌≡◌, refl, sym, subst, true, false, not, some, String}
use escrow_fx_marketplace.Domain.Errors.{Result}
use escrow_fx_marketplace.Domain.Entities.{User}
use escrow_fx_marketplace.Domain.Identity.{
  KycVerification, KycVerificationStatus, is_pending, is_under_review,
}
use escrow_fx_marketplace.Store.Db.{Db}
use escrow_fx_marketplace.Store.Action.{Env, Session, Action, ◌>>=◌, ◌>>◌, pure, commit, transact}
use escrow_fx_marketplace.Store.Ensures.{
  Ensures, IsSerial, Ensures-bind, Ensures-then, raise_if-Ensures, utc_now-Ensures, pure-Ensures,
  commit-Ensures, transact-Ensures,
}
use escrow_fx_marketplace.Store.Verifications
use escrow_fx_marketplace.Store.Verifications.{
  verification_by_id, save_verification, list_by_status, get_by_provider_reference,
}
use escrow_fx_marketplace.Identity.Kyc.{
  lock_verification, record_decision, approved, rejected, noted,
}
use escrow_fx_marketplace.Identity.Reviews.{approve_review, add_review_note, reject_review}
use escrow_fx_marketplace.Identity.Progress.{
  Becomes, Becomes-refl, Progress, Progress-refl, Progress-trans, Progress-same, save-Progress,
}
use escrow_fx_marketplace.Identity.Moves.{
  update-Ensures, record_decision-verifications, lock_verification-Ensures,
}

module _ (d : Db) (env : Env) (serial : IsSerial env) where
  -- A run in which the verifications have only progressed, in what is committed and in the view.
  abbrev pub Moves : {A : Type 0} → Result A × Session → Type 0
  Moves r = Ensures (Progress d) (λ _ e. Progress d e) r

  -- The end of a review: the row, and what leaves the verifications alone.
  pub write_row :
      (v w : KycVerification) (rest : KycVerification → Action KycVerification) (s : Session)
      → Progress d s.base
      → Progress d s.db
      → verification_by_id w.id s.db ≡ some v
      → Becomes v.status w.status
      → ((u : KycVerification) (t : Session)
          → Progress d t.base
          → Progress d t.db
          → Moves (rest u env t))
      → Moves ((Verifications.update w >>= rest) env s)
  write_row v w rest s i p found becomes k =
      Ensures-bind (Verifications.update w) rest s (update-Ensures (Progress d) env w s i)
        λ u t i' (_, e). k u t i' (
          Progress-trans d s.db t.db p
            (subst (Progress s.db) (sym e) (save-Progress s.db v w found becomes)))

  decided :
      (user : User) (v w : KycVerification) (status : KycVerificationStatus) (reason : String)
      (now : ℕ) (s : Session)
      → Progress d s.base
      → Progress d s.db
      → verification_by_id w.id s.db ≡ some v
      → Becomes v.status w.status
      → Moves (
          (do
            updated ← Verifications.update w
            record_decision user updated status reason now
            commit
            pure updated)
            env s)
  decided user v w status reason now s i p found becomes =
      write_row v w _ s i p found becomes λ u t i' p'.
        Ensures-then (record_decision user u status reason now) _ t
          (record_decision-verifications (Progress d) env user u status reason now t i')
          λ x i'' same. commit-Ensures _ x (
            pure-Ensures env u _ (Progress-same d t.db x.db p' same)
              (Progress-same d t.db x.db p' same))

  reviewed :
      (v : KycVerification) (status : KycVerificationStatus)
      → not (is_under_review v.status) ≡ false
      → not (is_pending status) ≡ true
      → Becomes v.status status
  reviewed v status under final = by_status v.status status under final
    where
      by_status :
          (a b : KycVerificationStatus)
          → not (is_under_review a) ≡ false
          → not (is_pending b) ≡ true
          → Becomes a b
      by_status KycVerificationStatus.requires_review KycVerificationStatus.verified h k = tt
      by_status KycVerificationStatus.requires_review KycVerificationStatus.rejected h k = tt
      by_status KycVerificationStatus.requires_review KycVerificationStatus.requires_review h k = tt
      by_status KycVerificationStatus.requires_review KycVerificationStatus.pending h k = cc
      by_status KycVerificationStatus.pending b h k = tt
      by_status KycVerificationStatus.verified b h k = cc
      by_status KycVerificationStatus.rejected b h k = cc

  pub approve_review-Progress :
      (id reviewer : ℕ) → Progress d (transact (approve_review id reviewer) env d).1
  unfolding approve_review
  approve_review-Progress id reviewer =
      transact-Ensures {I = Progress d} (λ _ e. Progress d e) _ env d
        (utc_now-Ensures _ _ (
          Ensures-bind (lock_verification id) _ _
            (lock_verification-Ensures (Progress d) env serial id _ (Progress-refl d))
            λ p s i (e, found). raise_if-Ensures _ _ _ s i λ under.
              decided p.0 p.1 (approved p.1 reviewer (env.clock 0)) KycVerificationStatus.verified
                "" (env.clock 0) s i (subst (Progress d) (sym e) (Progress-refl d))
                (subst (λ x. verification_by_id p.1.id x ≡ some p.1) (sym e) found)
                (reviewed p.1 KycVerificationStatus.verified under refl)))

  pub reject_review-Progress :
      (id reviewer : ℕ) (reason : String)
      → Progress d (transact (reject_review id reviewer reason) env d).1
  unfolding reject_review
  reject_review-Progress id reviewer reason =
      transact-Ensures {I = Progress d} (λ _ e. Progress d e) _ env d
        (utc_now-Ensures _ _ (
          Ensures-bind (lock_verification id) _ _
            (lock_verification-Ensures (Progress d) env serial id _ (Progress-refl d))
            λ p s i (e, found). raise_if-Ensures _ _ _ s i λ under.
              decided p.0 p.1 (rejected p.1 reviewer reason (env.clock 0))
                KycVerificationStatus.rejected reason (env.clock 0) s i
                (subst (Progress d) (sym e) (Progress-refl d))
                (subst (λ x. verification_by_id p.1.id x ≡ some p.1) (sym e) found)
                (reviewed p.1 KycVerificationStatus.rejected under refl)))

  pub add_review_note-Progress :
      (id reviewer : ℕ) (note : String)
      → Progress d (transact (add_review_note id reviewer note) env d).1
  unfolding add_review_note
  add_review_note-Progress id reviewer note =
      transact-Ensures {I = Progress d} (λ _ e. Progress d e) _ env d
        (utc_now-Ensures _ _ (
          Ensures-bind (lock_verification id) _ _
            (lock_verification-Ensures (Progress d) env serial id _ (Progress-refl d))
            λ p s i (e, found). raise_if-Ensures _ _ _ s i λ under.
              write_row p.1 (noted p.1 reviewer note (env.clock 0)) _ s i
                (subst (Progress d) (sym e) (Progress-refl d))
                (subst (λ x. verification_by_id p.1.id x ≡ some p.1) (sym e) found)
                (Becomes-refl p.1.status)
                λ u t i' p'. commit-Ensures _ t (pure-Ensures env u _ p' p')))
