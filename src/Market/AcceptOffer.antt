-- ===== src/Market/AcceptOffer.antt =====
-- `accept_offer` keeps the invariant.
use escrow_fx_marketplace.Common.{
  ℕ, ◌≡◌, refl, sym, ◌∙◌, ap, true, false, Option, some, List, [], ◌∷◌, arith, ◌==◌, All,
  All-weaken, leb, subst, find, ==→eq,
}
use escrow_fx_marketplace.Domain.Enums.{ExchangeRequestStatus}
use escrow_fx_marketplace.Domain.Lifecycle.{offer_is_active, request_can_accept_offers}
use escrow_fx_marketplace.Domain.Entities.{ExchangeRequest, ExchangeOffer, Corridor, User}
use escrow_fx_marketplace.Store.Db.{Db}
use escrow_fx_marketplace.Store.Action.{Env, Session, transact, for_each}
use escrow_fx_marketplace.Store.Ensures.{
  Ensures, IsSerial, Ensures-bind, Ensures-then, fetch-Ensures, fetch_last-Ensures,
  raise_if-Ensures, utc_now-Ensures, reads-Ensures, pure-Ensures, Ensures-weaken, transact-Ensures,
  uuid4-Ensures, raise_if_last-Ensures, for_each-Ensures,
}
use escrow_fx_marketplace.Store.Requests
use escrow_fx_marketplace.Store.Offers
use escrow_fx_marketplace.Store.Idempotency.{IdempotencyRequest, Claim}
use escrow_fx_marketplace.Market.Invariant.{request_is_locked, IsConsistent}
use escrow_fx_marketplace.Market.Frame.{SameMarket-consistent, publish-Same, lock_users-Same}
use escrow_fx_marketplace.Market.Reads.{IsRequestRow, IsOfferRow, lock-IsRequestRow}
use escrow_fx_marketplace.Market.Brackets.{
  board-unlocked, update_request_row, conclude-IsConsistent, with_claim-IsConsistent,
}
use escrow_fx_marketplace.Store.Users.{user_of, lock_users_in_order}
use escrow_fx_marketplace.Market.LockedOffers.{lock_offers-Ensures, ids}
use escrow_fx_marketplace.Service.Locks.{lock_offers}
use escrow_fx_marketplace.Store.Table.{sort_by}
use escrow_fx_marketplace.Market.Rows.{find-passes}
use escrow_fx_marketplace.Store.Trades
use escrow_fx_marketplace.Service.Trades.{
  accept_offer, accept_offer_claimed, lock_terms, check_acceptable, corridor_for_trade,
}
use escrow_fx_marketplace.Market.Settlement.{add_trade, settle-Ensures}

module _ (env : Env) (serial : IsSerial env) where
  trades-Same :
      (id user : ℕ) (s : Session)
      → IsConsistent s.base
      → Ensures IsConsistent (λ _ d. d ≡ s.db) (Trades.get_for_participant id user env s)
  unfolding Trades.get_for_participant
  trades-Same id user s i =
      fetch-Ensures _ _ _ s i λ row _. fetch_last-Ensures env _ _ s i λ _ _. refl

  lock_terms-IsConsistent :
      (now : ℕ) (request : ExchangeRequest) (offer : ExchangeOffer) (bs : List ExchangeOffer)
      (corridor : Corridor) (s : Session)
      → IsConsistent s.base
      → IsConsistent s.db
      → IsRequestRow request s.db
      → request_is_locked request.status ≡ false
      → All (λ b. IsOfferRow b s.db × (b.request_id ≡ request.id)) bs
      → ids bs ≡ ids (sort_by (λ a b. leb a.id b.id) (Offers.of_request request.id s.db))
      → find (λ o. o.id == offer.id) bs ≡ some offer
      → offer_is_active offer.status ≡ true
      → Ensures IsConsistent
          (λ _ d. IsConsistent d)
          (lock_terms now request offer bs corridor env s)
  unfolding lock_terms
  lock_terms-IsConsistent now request offer bs corridor s i h row unlocked rows listed found
        active =
      uuid4-Ensures _ s (
        Ensures-bind (Trades.add _) _ _ (add_trade env serial _ _ i h)
          λ t s₁ i₁ (own, accepts, e₁, free).
            Ensures-then (Requests.update _) _ s₁ (update_request_row env _ s₁ i₁) λ s₂ i₂ e₂.
              Ensures-then (for_each bs _) _ s₂
                (settle-Ensures env serial now request offer bs t s.db s₂ i₂ h row unlocked own
                  accepts free rows listed found active
                  (e₂
                    ∙ ap
                        (Requests.save (record request {
                          status = ExchangeRequestStatus.terms_locked;
                          updated_at = now;
                        }))
                        e₁))
                λ s₃ i₃ h₃.
                  Ensures-then (for_each (request.creator_user_id ∷ offer.offer_user_id ∷ []) _) _
                    s₃
                    (for_each-Ensures IsConsistent _
                      (λ recipient s i h.
                        Ensures-weaken (publish-Same env _ _ _ s i)
                          λ _ d same. SameMarket-consistent s.db d same h)
                      _ s₃ i₃ h₃)
                    λ s₄ i₄ h₄. pure-Ensures env t s₄ i₄ h₄)

  -- What the checks behind the locks have established when they pass.
  check_acceptable-Ensures :
      (user now : ℕ) (users : List User) (request : ExchangeRequest) (offer : ExchangeOffer)
      (s : Session)
      → IsConsistent s.base
      → Ensures IsConsistent
          (λ _ d.
            (d ≡ s.db)
            × (request_can_accept_offers request.status ≡ true)
            × (offer_is_active offer.status ≡ true))
          (check_acceptable user now users request offer env s)
  unfolding check_acceptable user_of
  check_acceptable-Ensures user now users request offer s i = fetch-Ensures _ _ _ s i λ _ _.
      raise_if-Ensures _ _ _ s i λ _. fetch-Ensures _ _ _ s i λ _ _. raise_if-Ensures _ _ _ s i λ _.
        raise_if-Ensures _ _ _ s i λ unsettled. raise_if-Ensures _ _ _ s i λ _.
          raise_if-Ensures _ _ _ s i λ active.
            raise_if_last-Ensures env _ _ s i
              λ _. (refl, ground (arith, unsettled), ground (arith, active))

  corridor-Same :
      (request : ExchangeRequest) (s : Session)
      → IsConsistent s.base
      → Ensures IsConsistent (λ _ d. d ≡ s.db) (corridor_for_trade request env s)
  unfolding corridor_for_trade
  corridor-Same request s i =
      fetch-Ensures _ _ _ s i λ c _. raise_if-Ensures _ _ _ s i λ _. pure-Ensures env c s i refl

  accept_offer_claimed-IsConsistent :
      (offer_id user now : ℕ) (claim : Claim) (s : Session)
      → IsConsistent s.base
      → IsConsistent s.db
      → Ensures IsConsistent
          (λ _ d. IsConsistent d)
          (accept_offer_claimed offer_id user now claim env s)
  unfolding accept_offer_claimed Offers.get Requests.get Offers.list_for_request
  accept_offer_claimed-IsConsistent offer_id user now claim s i h =
      fetch-Ensures _ _ _ s i λ initial_offer _. fetch-Ensures _ _ _ s i λ initial_request _.
        raise_if-Ensures _ _ _ s i λ _. reads-Ensures _ _ s (
          raise_if-Ensures _ _ _ s i λ _.
            Ensures-bind (lock_users_in_order _) _ s (lock_users-Same env serial _ s i)
              λ users s₁ i₁ e₁.
                Ensures-bind (Requests.get_for_update initial_request.id) _ s₁
                  (lock-IsRequestRow env serial initial_request.id s₁ i₁)
                  λ request s₂ i₂ (e₂, rid, row). raise_if-Ensures _ _ _ s₂ i₂ λ _.
                    reads-Ensures _ _ s₂ (
                      raise_if-Ensures _ _ _ s₂ i₂ λ _.
                        Ensures-bind (lock_offers request.id _ _) _ s₂
                          (lock_offers-Ensures env serial request.id _ s₂ i₂)
                          λ bs s₃ i₃ (e₃, rows, listed). fetch-Ensures _ _ _ s₃ i₃ λ offer found.
                            let oid : offer.id ≡ offer_id =
                              ==→eq offer.id offer_id
                                (find-passes (λ o. o.id == offer_id) bs found) in
                            Ensures-then (check_acceptable user now users request offer) _ s₃
                              (check_acceptable-Ensures user now users request offer s₃ i₃)
                              λ s₄ i₄ (e₄, unsettled, active).
                                Ensures-bind (corridor_for_trade request) _ s₄
                                  (corridor-Same request s₄ i₄)
                                  λ corridor s₅ i₅ e₅.
                                    let same : s₅.db ≡ s₂.db = e₅ ∙ e₄ ∙ e₃ in
                                    Ensures-bind (lock_terms now request offer bs corridor) _ s₅
                                      (lock_terms-IsConsistent now request offer bs corridor s₅ i₅
                                        (rw (same ∙ e₂ ∙ e₁) h) (rw (same ∙ e₂) row)
                                        (board-unlocked request.status unsettled)
                                        (All-weaken
                                          (λ b. IsOfferRow b s₂.db × (b.request_id ≡ request.id)) _
                                          (λ b p. (rw same p.0, p.1)) bs rows)
                                        (rw same listed)
                                        (subst (λ k. find (λ o. o.id == k) bs ≡ some offer)
                                          (sym oid) found)
                                        active)
                                      λ trade s₆ i₆ h₆.
                                        Ensures-bind (Trades.get_for_participant trade.id user) _ s₆
                                          (trades-Same trade.id user s₆ i₆)
                                          λ details s₇ i₇ e₇.
                                            conclude-IsConsistent env claim _ _ now s₇ i₇
                                              (rw e₇ h₆)))

  -- When transactions run one after the other, accepting an offer, whatever the outcome,
  -- leaves a committed marketplace consistent that was so before.
  pub accept_offer-IsConsistent :
      (offer_id user : ℕ) (q : Option IdempotencyRequest) (d : Db)
      → IsConsistent d
      → IsConsistent (transact (accept_offer offer_id user q) env d).1
  unfolding accept_offer
  accept_offer-IsConsistent offer_id user q d h =
      transact-Ensures (λ _ d. IsConsistent d) _ env d
        (utc_now-Ensures _ _ (
          with_claim-IsConsistent env serial q _ _ _ h h
            λ claim s i h. accept_offer_claimed-IsConsistent offer_id user _ claim s i h))
