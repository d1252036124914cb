-- ===== src/Market/CloseOffer.antt =====
-- `withdraw_offer` and `reject_offer` keep the invariant.
use escrow_fx_marketplace.Common.{
  ℕ, ◌≡◌, refl, ap, true, false, Option, List, arith, ◌==◌, All-weaken, any, leb,
}
use escrow_fx_marketplace.Domain.Enums.{
  ExchangeRequestStatus, ExchangeOfferStatus, request_is_pending,
}
use escrow_fx_marketplace.Domain.Lifecycle.{offer_is_active}
use escrow_fx_marketplace.Domain.Entities.{ExchangeOffer}
use escrow_fx_marketplace.Store.Db.{Db}
use escrow_fx_marketplace.Store.Action.{Env, Session, transact}
use escrow_fx_marketplace.Store.Ensures.{
  Ensures, IsSerial, Ensures-bind, Ensures-then, raise_if-Ensures, utc_now-Ensures, reads-Ensures,
  when-Ensures, Ensures-weaken, transact-Ensures,
}
use escrow_fx_marketplace.Store.Offers
use escrow_fx_marketplace.Store.Table.{sort_by-All, select-All}
use escrow_fx_marketplace.Store.Idempotency.{IdempotencyRequest, Claim}
use escrow_fx_marketplace.Service.Offers.{
  OfferContext, status_after_offer_change, status_has_changed, lock_existing_offer_context,
  close_offer, withdraw_offer, withdraw_offer_claimed, reject_offer, reject_offer_claimed,
}
use escrow_fx_marketplace.Market.Rows.{any-All, find_unique}
use escrow_fx_marketplace.Market.Invariant.{
  offer_is_accepted, offer_key, IsConsistent, NoActiveOffer, nothing,
}
use escrow_fx_marketplace.Market.RequestWrites.{close_request-IsConsistent}
use escrow_fx_marketplace.Market.OfferWrites.{save_offer-IsConsistentBut}
use escrow_fx_marketplace.Market.Reads.{IsRequestRow, IsOfferRow, lock_context}
use escrow_fx_marketplace.Market.Brackets.{
  pending-unlocked, update_offer_row, update_request_row, with_claim-IsConsistent, finish_offer,
}

-- With no active offer among those of the request, the request has none.
pub of_request-NoActiveOffer :
    (id : ℕ) (d : Db)
    → any (λ o. offer_is_active o.status) (Offers.of_request id d) ≡ false
    → NoActiveOffer id d
of_request-NoActiveOffer id d e =
    select-All (λ o. offer_is_active o.status ≡ false) (λ o. o.request_id == id) d.offers
      (sort_by-All _ (λ a b. leb b.created_at a.created_at) _
        (any-All (λ o. offer_is_active o.status) (Offers.of_request id d) e))

-- A status changes only from OFFER_PENDING, when no offer is active.
pub status_change :
    (status : ExchangeRequestStatus) (offers : List ExchangeOffer)
    → status_has_changed status (status_after_offer_change status offers) ≡ true
    → (request_is_pending status ≡ true) × (any (λ o. offer_is_active o.status) offers ≡ false)
status_change ExchangeRequestStatus.offer_pending offers e = ground arith
status_change ExchangeRequestStatus.request_open offers e = cc
status_change ExchangeRequestStatus.terms_locked offers e = cc
status_change ExchangeRequestStatus.cancelled offers e = cc
status_change ExchangeRequestStatus.expired offers e = cc

module _ (env : Env) where
  -- Closing an offer, whose row and request are current, keeps the invariant.
  pub close_offer-IsConsistent :
      (c : OfferContext) (status : ExchangeOfferStatus) (now : ℕ) (s : Session)
      → offer_is_active status ≡ false
      → IsConsistent s.base
      → IsConsistent s.db
      → IsRequestRow c.request s.db
      → IsOfferRow c.offer s.db
      → offer_is_active c.offer.status ≡ true
      → Ensures IsConsistent (λ _ d. IsConsistent d) (close_offer c status now env s)
  unfolding close_offer Offers.list_for_request
  close_offer-IsConsistent c status now s inactive i h rrow orow active =
      Ensures-then (Offers.update _) _ s (update_offer_row env _ s i) λ s₁ i₁ e₁.
        let h₁ : IsConsistent s₁.db = (rw e₁ saved) in
        reads-Ensures _ _ s₁ (
          when-Ensures env _ _ _ s₁ i₁
            (λ changed.
              let (pending, idle) = status_change c.request.status _ changed in
              Ensures-weaken (update_request_row env _ s₁ i₁) λ _ d e. rw e (
                close_request-IsConsistent nothing s₁.db
                  (record c.request {
                    status =
                        status_after_offer_change c.request.status
                          (Offers.of_request c.request.id s₁.db);
                    updated_at = now;
                  })
                  c.request h₁ (rw e₁ rrow) (pending-unlocked c.request.status pending)
                  (of_request-NoActiveOffer c.request.id s₁.db idle)))
            (λ _. h₁))
    where
      once :
          (o : ExchangeOffer)
          → (o.id ≡ c.offer.id → o ≡ c.offer)
          → o.id ≡ c.offer.id
          → offer_is_accepted o.status ≡ true
          → offer_is_accepted status ≡ true
      once o u e acc =
          absurd (ground (arith, ap (λ (o : ExchangeOffer). o.status) (u e), acc, active))

      saved : IsConsistent (Offers.save (record c.offer { status = status; updated_at = now }) s.db)
      saved =
          save_offer-IsConsistentBut nothing nothing s.db h
            (record c.offer { status = status; updated_at = now })
            (All-weaken _ _ once s.db.offers
              (find_unique offer_key c.offer.id s.db.offers h.offers_keyed orow))
            (All-weaken _ _ (λ o _ _ e. absurd (ground (arith, e, inactive))) s.db.offers
              (find_unique offer_key c.offer.id s.db.offers h.offers_keyed orow))

module _ (env : Env) (serial : IsSerial env) where
  withdraw_offer_claimed-IsConsistent :
      (offer_id offer_user_id now : ℕ) (claim : Claim) (s : Session)
      → IsConsistent s.base
      → IsConsistent s.db
      → Ensures IsConsistent
          (λ _ d. IsConsistent d)
          (withdraw_offer_claimed offer_id offer_user_id now claim env s)
  unfolding withdraw_offer_claimed
  withdraw_offer_claimed-IsConsistent offer_id offer_user_id now claim s i h =
      Ensures-bind (lock_existing_offer_context offer_id) _ s (lock_context env serial offer_id s i)
        λ c s₁ i₁ (e₁, rrow, orow, _, _). raise_if-Ensures _ _ _ s₁ i₁ λ _.
          raise_if-Ensures _ _ _ s₁ i₁ λ active. raise_if-Ensures _ _ _ s₁ i₁ λ _.
            raise_if-Ensures _ _ _ s₁ i₁ λ _.
              Ensures-then (close_offer c ExchangeOfferStatus.withdrawn now) _ s₁
                (close_offer-IsConsistent env c ExchangeOfferStatus.withdrawn now s₁ refl i₁
                  (rw e₁ h) (rw e₁ rrow) (rw e₁ orow) (ground (arith, active)))
                λ s₂ i₂ h₂. finish_offer env serial _ _ _ _ _ _ _ _ s₂ i₂ h₂

  -- When transactions run one after the other, withdrawing an offer, whatever the outcome,
  -- leaves a committed marketplace consistent that was so before.
  pub withdraw_offer-IsConsistent :
      (offer_id offer_user_id : ℕ) (q : Option IdempotencyRequest) (d : Db)
      → IsConsistent d
      → IsConsistent (transact (withdraw_offer offer_id offer_user_id q) env d).1
  unfolding withdraw_offer
  withdraw_offer-IsConsistent offer_id offer_user_id q d h =
      transact-Ensures (λ _ d. IsConsistent d) _ env d
        (utc_now-Ensures _ _ (
          with_claim-IsConsistent env serial q _ _ _ h h λ claim s i h.
            withdraw_offer_claimed-IsConsistent offer_id offer_user_id _ claim s i h))

  reject_offer_claimed-IsConsistent :
      (offer_id requester_user_id now : ℕ) (claim : Claim) (s : Session)
      → IsConsistent s.base
      → IsConsistent s.db
      → Ensures IsConsistent
          (λ _ d. IsConsistent d)
          (reject_offer_claimed offer_id requester_user_id now claim env s)
  unfolding reject_offer_claimed
  reject_offer_claimed-IsConsistent offer_id requester_user_id now claim s i h =
      Ensures-bind (lock_existing_offer_context offer_id) _ s (lock_context env serial offer_id s i)
        λ c s₁ i₁ (e₁, rrow, orow, _, _). raise_if-Ensures _ _ _ s₁ i₁ λ active.
          raise_if-Ensures _ _ _ s₁ i₁ λ _. raise_if-Ensures _ _ _ s₁ i₁ λ _.
            raise_if-Ensures _ _ _ s₁ i₁ λ _. raise_if-Ensures _ _ _ s₁ i₁ λ _.
              Ensures-then (close_offer c ExchangeOfferStatus.rejected now) _ s₁
                (close_offer-IsConsistent env c ExchangeOfferStatus.rejected now s₁ refl i₁
                  (rw e₁ h) (rw e₁ rrow) (rw e₁ orow) (ground (arith, active)))
                λ s₂ i₂ h₂. finish_offer env serial _ _ _ _ _ _ _ _ s₂ i₂ h₂

  -- When transactions run one after the other, rejecting an offer, whatever the outcome,
  -- leaves a committed marketplace consistent that was so before.
  pub reject_offer-IsConsistent :
      (offer_id requester_user_id : ℕ) (q : Option IdempotencyRequest) (d : Db)
      → IsConsistent d
      → IsConsistent (transact (reject_offer offer_id requester_user_id q) env d).1
  unfolding reject_offer
  reject_offer-IsConsistent offer_id requester_user_id q d h =
      transact-Ensures (λ _ d. IsConsistent d) _ env d
        (utc_now-Ensures _ _ (
          with_claim-IsConsistent env serial q _ _ _ h h λ claim s i h.
            reject_offer_claimed-IsConsistent offer_id requester_user_id _ claim s i h))
