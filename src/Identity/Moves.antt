-- ===== src/Identity/Moves.antt =====
-- What each operation on verifications does to their statuses.
use escrow_fx_marketplace.Common.{
  ℕ, ◌≡◌, refl, sym, subst, ◌∙◌, Option, some, String, [], ◌∷◌, ◌++◌, Bool-cases, inl, inr,
}
use escrow_fx_marketplace.Domain.Entities.{User}
use escrow_fx_marketplace.Domain.Identity.{
  KycVerification, KycVerificationStatus, KycProviderResult, is_pending,
}
use escrow_fx_marketplace.Store.Db.{Db, Payload}
use escrow_fx_marketplace.Store.Action.{Env, Session}
use escrow_fx_marketplace.Store.Ensures.{
  Ensures, Ensures-weaken, IsSerial, Ensures-bind, fetch-Ensures, fetch_last-Ensures, wait-Ensures,
  utc_now-Ensures, uuid4-Ensures, pure-Ensures, write-Ensures, write_if-Ensures,
  write_if_last-Ensures,
}
use escrow_fx_marketplace.Store.Users
use escrow_fx_marketplace.Store.Verifications
use escrow_fx_marketplace.Store.Verifications.{
  verification_by_id, save_verification, list_by_status, get_by_provider_reference,
}
use escrow_fx_marketplace.Store.Outbox.{publish}
use escrow_fx_marketplace.Market.LockedUsers.{lock_user}
use escrow_fx_marketplace.Identity.Kyc.{
  lock_verification, record_decision, record_result, reason_of,
}
use escrow_fx_marketplace.Identity.Progress.{found_id}

module _ (I : Db → Type 0) (env : Env) where
  pub update-Ensures :
      (w : KycVerification) (s : Session)
      → I s.base
      → Ensures I (λ u d. (u ≡ w) × (d ≡ save_verification w s.db)) (Verifications.update w env s)
  unfolding Verifications.update
  update-Ensures w s i =
      fetch-Ensures _ _ _ s i λ _ _. write-Ensures _ _ s (pure-Ensures env w _ i (refl, refl))

  pub add-Ensures :
      (w : KycVerification) (s : Session)
      → I s.base
      → Ensures I
          (λ u d. (u ≡ w) × (d ≡ record s.db { verifications = s.db.verifications ++ w ∷ [] }))
          (Verifications.add w env s)
  unfolding Verifications.add
  add-Ensures w s i = write_if-Ensures _ _ _ _ s i λ _. pure-Ensures env w _ i (refl, refl)

  pub publish-verifications :
      (payload : Payload) (aggregate_id : ℕ) (recipient : Option ℕ) (s : Session)
      → I s.base
      → Ensures I
          (λ _ d. d.verifications ≡ s.db.verifications)
          (publish payload aggregate_id recipient env s)
  unfolding publish
  publish-verifications payload aggregate_id recipient s i =
      utc_now-Ensures _ s (uuid4-Ensures _ _ (write_if_last-Ensures env _ _ _ _ i λ _. refl))

  save_user-verifications :
      (user : User) (s : Session)
      → I s.base
      → Ensures I (λ _ d. d.verifications ≡ s.db.verifications) (Users.update user env s)
  unfolding Users.update
  save_user-verifications user s i =
      fetch-Ensures _ _ _ s i
        λ _ _. write_if-Ensures _ _ _ _ s i λ _. pure-Ensures env user _ i refl

  pub record_decision-verifications :
      (user : User) (v : KycVerification) (status : KycVerificationStatus) (reason : String)
      (now : ℕ) (s : Session)
      → I s.base
      → Ensures I
          (λ _ d. d.verifications ≡ s.db.verifications)
          (record_decision user v status reason now env s)
  unfolding record_decision
  record_decision-verifications user v status reason now s i =
      Ensures-bind (Users.update _) _ s (save_user-verifications _ s i)
        λ _ t i' same. Ensures-weaken (publish-verifications _ _ _ t i') λ _ d e. e ∙ same

  pub record_result-verifications :
      (user : User) (v : KycVerification) (result : KycProviderResult) (now : ℕ) (s : Session)
      → I s.base
      → Ensures I
          (λ _ d. d.verifications ≡ s.db.verifications)
          (record_result user v result now env s)
  unfolding record_result
  record_result-verifications user v result now s i = elim (Bool-cases (is_pending result.status)) [
    | inl pending ↦ rw pending (pure-Ensures env tt s i refl)
    | inr final ↦
        rw final (record_decision-verifications user v result.status (reason_of result) now s i)
  ]

  lock_row :
      IsSerial env
      → (id : ℕ) (s : Session) → I s.base
      → Ensures I
          (λ v d. (d ≡ s.db) × (verification_by_id id s.db ≡ some v))
          (Verifications.get_for_update id env s)
  unfolding Verifications.get_for_update
  lock_row serial id s i =
      wait-Ensures serial _ s (fetch_last-Ensures env _ _ _ i λ v found. (refl, found))

  -- The locked verification is the row in the database.
  pub lock_verification-Ensures :
      IsSerial env
      → (id : ℕ) (s : Session) → I s.base
      → Ensures I
          (λ p d. (d ≡ s.db) × (verification_by_id p.1.id s.db ≡ some p.1))
          (lock_verification id env s)
  unfolding lock_verification Verifications.get
  lock_verification-Ensures serial id s i = fetch-Ensures _ _ _ s i λ snapshot _.
      Ensures-bind (Users.get_for_update snapshot.user_id) _ s
        (lock_user env serial I snapshot.user_id s i)
        λ user t i' (e, row).
          Ensures-bind (Verifications.get_for_update snapshot.id) _ t
            (lock_row serial snapshot.id t i')
            λ v u i'' (e', found).
              pure-Ensures env (user, v) u i''
                (
                  e' ∙ e,
                  subst (λ d. verification_by_id v.id d ≡ some v) e
                      (subst (λ k. verification_by_id k t.db ≡ some v)
                        (sym (found_id snapshot.id v t.db.verifications found)) found),
                )
