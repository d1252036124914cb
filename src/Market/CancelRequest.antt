-- ===== src/Market/CancelRequest.antt =====
-- `cancel_request` keeps the invariant: every offer of the request is ended with it.
use escrow_fx_marketplace.Common.{
  ℕ, ◌≡◌, refl, ◌∙◌, ap, true, false, Option, some, List, arith, All, All-weaken, inl, leb, subst,
}
use escrow_fx_marketplace.Domain.Enums.{ExchangeRequestStatus, ExchangeOfferStatus}
use escrow_fx_marketplace.Domain.Entities.{ExchangeRequest, ExchangeOffer}
use escrow_fx_marketplace.Store.Db.{Db, exchange_request_cancelled}
use escrow_fx_marketplace.Store.Action.{Env, Session, transact}
use escrow_fx_marketplace.Store.Ensures.{
  Ensures, IsSerial, Ensures-bind, Ensures-then, fetch-Ensures, raise_if-Ensures, utc_now-Ensures,
  reads-Ensures, Ensures-weaken, transact-Ensures,
}
use escrow_fx_marketplace.Store.Requests
use escrow_fx_marketplace.Store.Offers
use escrow_fx_marketplace.Store.Outbox.{publish}
use escrow_fx_marketplace.Store.Idempotency.{IdempotencyRequest, Claim}
use escrow_fx_marketplace.Market.Invariant.{
  request_is_locked, IsConsistentBut, IsConsistent, nothing,
}
use escrow_fx_marketplace.Market.Frame.{SameMarket-consistent, publish-Same, lock_users-Same}
use escrow_fx_marketplace.Market.Reads.{IsRequestRow, IsOfferRow, lock-IsRequestRow}
use escrow_fx_marketplace.Market.Brackets.{
  update_request_row, conclude-IsConsistent, with_claim-IsConsistent,
}
use escrow_fx_marketplace.Store.Users.{lock_users_in_order}
use escrow_fx_marketplace.Market.Settle.{loop-Ensures}
use escrow_fx_marketplace.Market.LockedOffers.{lock_offers-Ensures, ids}
use escrow_fx_marketplace.Market.Settled.{settled-NoActiveOffer}
use escrow_fx_marketplace.Market.RequestWrites.{exempt_request-IsConsistentBut, end_exemption, only}
use escrow_fx_marketplace.Market.RequestOps.{details-Same}
use escrow_fx_marketplace.Service.Requests.{
  cancel_request, cancel_request_claimed, cancel_locked, reject_for_cancellation,
}
use escrow_fx_marketplace.Service.Locks.{lock_offers}
use escrow_fx_marketplace.Domain.Lifecycle.{request_can_be_cancelled}
use escrow_fx_marketplace.Store.Table.{sort_by}

abbrev all_rejected : ℕ → ExchangeOfferStatus
all_rejected _ = ExchangeOfferStatus.rejected

cancellable-unlocked :
    (status : ExchangeRequestStatus)
    → request_can_be_cancelled status ≡ true
    → request_is_locked status ≡ false
cancellable-unlocked status e = ground arith

module _ (env : Env) (serial : IsSerial env) where
  cancel_locked-IsConsistent :
      (user now : ℕ) (request : ExchangeRequest) (bs : List ExchangeOffer) (s : Session)
      → IsConsistent s.base
      → IsConsistent s.db
      → IsRequestRow request s.db
      → request_is_locked request.status ≡ false
      → All (λ b. IsOfferRow b s.db) bs
      → ids bs ≡ ids (sort_by (λ a b. leb a.id b.id) (Offers.of_request request.id s.db))
      → Ensures IsConsistent (λ _ d. IsConsistent d) (cancel_locked user now request bs env s)
  unfolding cancel_locked reject_for_cancellation
  cancel_locked-IsConsistent user now request bs s i h row unlocked rows listed =
      Ensures-then (Requests.update _) _ s (update_request_row env _ s i) λ s₁ i₁ e₁.
        Ensures-then (publish (exchange_request_cancelled request.id user) request.id (some user)) _
          s₁ (publish-Same env _ _ _ s₁ i₁)
          λ s₂ i₂ same.
            let offers_kept : s₂.db.offers ≡ s.db.offers = same.1 ∙ ap (λ (d : Db). d.offers) e₁ in
            Ensures-weaken
              (loop-Ensures all_rejected (λ _. refl) env _ (λ x s i. publish-Same env _ _ _ s i)
                request.id now nothing s₂.db bs s₂ i₂
                (SameMarket-consistent s₁.db s₂.db same (rw e₁ exempted), refl, refl, refl)
                (All-weaken (λ b. IsOfferRow b s.db) _ (λ b p. rw offers_kept p) bs rows))
              λ _ d (u, settled). end_exemption nothing request.id d u.0 (
                inl (
                  settled-NoActiveOffer all_rejected (λ _. refl) request.id bs s₂.db d
                    (rw offers_kept listed) u.1 settled))
    where
      exempted : IsConsistentBut (only request.id) nothing (
          Requests.save
            (record request { status = ExchangeRequestStatus.cancelled; updated_at = now })
            s.db)
      exempted =
          exempt_request-IsConsistentBut nothing s.db
            (record request { status = ExchangeRequestStatus.cancelled; updated_at = now }) request
            h row unlocked

  cancel_request_claimed-IsConsistent :
      (id user now : ℕ) (claim : Claim) (s : Session)
      → IsConsistent s.base
      → IsConsistent s.db
      → Ensures IsConsistent
          (λ _ d. IsConsistent d)
          (cancel_request_claimed id user now claim env s)
  unfolding cancel_request_claimed Requests.get Offers.list_for_request
  cancel_request_claimed-IsConsistent id user now claim s i h =
      fetch-Ensures _ _ _ s i λ initial_request _. raise_if-Ensures _ _ _ s i λ _.
        reads-Ensures _ _ s (
          Ensures-bind (lock_users_in_order _) _ s (lock_users-Same env serial _ s i)
            λ users s₁ i₁ e₁.
              Ensures-bind (Requests.get_for_update id) _ s₁ (lock-IsRequestRow env serial id s₁ i₁)
                λ request s₂ i₂ (e₂, rid, row). raise_if-Ensures _ _ _ s₂ i₂ λ _.
                  reads-Ensures _ _ s₂ (
                    raise_if-Ensures _ _ _ s₂ i₂ λ _.
                      Ensures-bind
                        (lock_offers request.id (Offers.of_request id s.db)
                          (Offers.of_request id s₂.db))
                        _ s₂
                        (subst
                          (λ k.
                            Ensures IsConsistent
                              (λ bs d.
                                (d ≡ s₂.db)
                                × All (λ b. IsOfferRow b s₂.db × (b.request_id ≡ request.id)) bs
                                × (ids bs
                                    ≡ ids (
                                        sort_by (λ a b. leb a.id b.id)
                                          (Offers.of_request request.id s₂.db))))
                              (lock_offers request.id (Offers.of_request id s.db)
                                (Offers.of_request k s₂.db) env s₂))
                          rid
                          (lock_offers-Ensures env serial request.id (Offers.of_request id s.db) s₂
                            i₂))
                        λ bs s₃ i₃ (e₃, rows, listed). raise_if-Ensures _ _ _ s₃ i₃ λ allowed.
                          raise_if-Ensures _ _ _ s₃ i₃ λ _.
                            Ensures-then (cancel_locked user now request bs) _ s₃
                              (cancel_locked-IsConsistent user now request bs s₃ i₃
                                (rw (e₃ ∙ e₂ ∙ e₁) h) (rw (e₃ ∙ e₂) row)
                                (cancellable-unlocked request.status (ground (arith, allowed)))
                                (All-weaken (λ b. IsOfferRow b s₂.db × (b.request_id ≡ request.id))
                                  _ (λ b p. rw e₃ p.0) bs rows)
                                (rw e₃ listed))
                              λ s₄ i₄ h₄.
                                Ensures-bind (Requests.get_details_for_user id user) _ s₄
                                  (details-Same env serial id user s₄ i₄)
                                  λ details s₅ i₅ e₅.
                                    conclude-IsConsistent env claim _ _ now s₅ i₅ (rw e₅ h₄)))

  -- When transactions run one after the other, cancelling a request, whatever the outcome,
  -- leaves a committed marketplace consistent that was so before.
  pub cancel_request-IsConsistent :
      (id user : ℕ) (q : Option IdempotencyRequest) (d : Db)
      → IsConsistent d
      → IsConsistent (transact (cancel_request id user q) env d).1
  unfolding cancel_request
  cancel_request-IsConsistent id user q d h =
      transact-Ensures (λ _ d. IsConsistent d) _ env d
        (utc_now-Ensures _ _ (
          with_claim-IsConsistent env serial q _ _ _ h h
            λ claim s i h. cancel_request_claimed-IsConsistent id user _ claim s i h))
