-- ===== src/Market/RequestGuards.antt =====
-- What the cancellation of a request requires of the state in which it commits.
use escrow_fx_marketplace.Common.{
  ℕ, ◌≡◌, refl, subst, ◌∙◌, ap, true, false, Option, List, arith, leb, inl,
}
use escrow_fx_marketplace.Domain.Lifecycle.{request_can_be_cancelled}
use escrow_fx_marketplace.Domain.Entities.{ExchangeRequest, ExchangeOffer}
use escrow_fx_marketplace.Store.Db.{Db}
use escrow_fx_marketplace.Store.Action.{Env, Session, transact}
use escrow_fx_marketplace.Store.Ensures.{
  Ensures, IsSerial, Ensures-bind, fetch-Ensures, raise_if-Ensures, utc_now-Ensures, reads-Ensures,
  transact-Ensures, Ensures-weaken,
}
use escrow_fx_marketplace.Store.Requests
use escrow_fx_marketplace.Store.Offers
use escrow_fx_marketplace.Store.Users.{lock_users_in_order}
use escrow_fx_marketplace.Store.Idempotency.{IdempotencyRequest, Claim}
use escrow_fx_marketplace.Service.Locks.{lock_offers}
use escrow_fx_marketplace.Market.Frame.{SameMarket, lock_users-Same}
use escrow_fx_marketplace.Market.Reads.{IsRequestRow, lock-IsRequestRow}
use escrow_fx_marketplace.Market.LockedOffers.{lock_offers-Ensures}
use escrow_fx_marketplace.Market.Guards.{IsGuarded, Ensures-IsGuarded, with_claim-IsGuarded}
use escrow_fx_marketplace.Service.Requests.{cancel_request, cancel_request_claimed}

pub record CanCancel (request_id user now : ℕ) (d : Db) : Type 0 where
  pub request : ExchangeRequest
  pub the_request : request.id ≡ request_id
  pub request_row : IsRequestRow request d
  pub by_creator : request.creator_user_id ≡ user
  pub cancellable : request_can_be_cancelled request.status ≡ true
  pub request_live : leb request.expires_at now ≡ false

module _ (env : Env) (serial : IsSerial env) where
  cancel_request_claimed-IsGuarded :
      (id user now : ℕ) (d : Db) (claim : Claim) (s : Session)
      → IsGuarded (CanCancel id user now d) d s.base
      → SameMarket d s.db
      → Ensures
          (IsGuarded (CanCancel id user now d) d)
          (λ _ _. Unit {0})
          (cancel_request_claimed id user now claim env s)
  unfolding cancel_request_claimed Requests.get Offers.list_for_request
  cancel_request_claimed-IsGuarded id user now d claim s i same =
      fetch-Ensures _ _ _ s i λ initial_request _. raise_if-Ensures _ _ _ s i λ by_creator.
        reads-Ensures _ _ s (
          Ensures-bind (lock_users_in_order _) _ s (lock_users-Same env serial _ s i)
            λ users s₁ i₁ e₁.
              Ensures-bind (Requests.get_for_update id) _ s₁ (lock-IsRequestRow env serial id s₁ i₁)
                λ request s₂ i₂ (e₂, rid, row). raise_if-Ensures _ _ _ s₂ i₂ λ unchanged.
                  reads-Ensures _ _ s₂ (
                    raise_if-Ensures _ _ _ s₂ i₂ λ _.
                      Ensures-bind (lock_offers request.id _ _) _ s₂
                        (locked request.id id rid (Offers.of_request id s.db) s₂ i₂)
                        λ bs s₃ i₃ _. raise_if-Ensures _ _ _ s₃ i₃ λ allowed.
                          raise_if-Ensures _ _ _ s₃ i₃ λ live. Ensures-IsGuarded _ (record {
                            request = request;
                            the_request = rid;
                            request_row = rw (ap (λ (d : Db). d.requests) e₁ ∙ same.0) at row;
                            by_creator = ground (arith, by_creator, unchanged);
                            cancellable = ground (arith, allowed);
                            request_live = live;
                          })))
    where
      locked :
          (k id' : ℕ)
          → k ≡ id'
          → (initial : List ExchangeOffer) (s : Session)
          → IsGuarded (CanCancel id user now d) d s.base
          → Ensures
              (IsGuarded (CanCancel id user now d) d)
              (λ _ _. Unit {0})
              (lock_offers k initial (Offers.of_request id' s.db) env s)
      locked k id' e initial s i =
          subst
            (λ j.
              Ensures (IsGuarded (CanCancel id user now d) d) (λ _ _. Unit {0})
                (lock_offers k initial (Offers.of_request j s.db) env s))
            e (Ensures-weaken (lock_offers-Ensures env serial k initial s i) λ _ _ _. tt)

  -- When transactions run one after the other, a cancellation commits nothing unless the user
  -- created the request, which may be cancelled and has not expired.
  pub cancel_request-IsGuarded :
      (id user : ℕ) (q : Option IdempotencyRequest) (d : Db)
      → IsGuarded
          (CanCancel id user (env.clock 0) d)
          d
          (transact (cancel_request id user q) env d).1
  unfolding cancel_request
  cancel_request-IsGuarded id user q d =
      transact-Ensures {I = IsGuarded (CanCancel id user (env.clock 0) d) d} (λ _ _. Unit {0}) _ env
        d
        (utc_now-Ensures _ _ (
          with_claim-IsGuarded env serial (CanCancel id user (env.clock 0) d) d _ _
            (λ claim s i same. cancel_request_claimed-IsGuarded id user _ d claim s i same) q _
            (inl refl) refl))
