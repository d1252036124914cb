-- ===== src/Market/OfferGuards.antt =====
-- What the mutations of an offer require of the state in which they commit.
use escrow_fx_marketplace.Common.{ℕ, ◌≡◌, refl, true, false, Option, arith, leb, inl}
use escrow_fx_marketplace.Domain.Lifecycle.{offer_is_active, request_can_accept_offers}
use escrow_fx_marketplace.Domain.Entities.{ExchangeRequest, ExchangeOffer}
use escrow_fx_marketplace.Store.Db.{Db}
use escrow_fx_marketplace.Store.Action.{Env, Session, transact}
use escrow_fx_marketplace.Store.Ensures.{
  Ensures, IsSerial, Ensures-bind, raise_if-Ensures, utc_now-Ensures, transact-Ensures,
}
use escrow_fx_marketplace.Store.Idempotency.{IdempotencyRequest, Claim}
use escrow_fx_marketplace.Market.Frame.{SameMarket}
use escrow_fx_marketplace.Market.Reads.{IsRequestRow, IsOfferRow, lock_context}
use escrow_fx_marketplace.Market.Guards.{IsGuarded, Ensures-IsGuarded, with_claim-IsGuarded}
use escrow_fx_marketplace.Service.Offers.{
  lock_existing_offer_context, withdraw_offer, withdraw_offer_claimed, reject_offer,
  reject_offer_claimed,
}

-- The offer, on its request, may be ended at the time.
pub record IsOpenOffer (offer_id now : ℕ) (offer : ExchangeOffer) (request : ExchangeRequest)
    (d : Db) : Type 0 where
  pub the_offer : offer.id ≡ offer_id
  pub offer_row : IsOfferRow offer d
  pub request_row : IsRequestRow request d
  pub on_request : offer.request_id ≡ request.id
  pub active : offer_is_active offer.status ≡ true
  pub offer_live : leb offer.expires_at now ≡ false
  pub on_board : request_can_accept_offers request.status ≡ true

pub record CanWithdraw (offer_id user now : ℕ) (d : Db) : Type 0 where
  pub offer : ExchangeOffer
  pub request : ExchangeRequest
  pub owned : offer.offer_user_id ≡ user
  pub withdrawable : IsOpenOffer offer_id now offer request d

pub record CanReject (offer_id user now : ℕ) (d : Db) : Type 0 where
  pub offer : ExchangeOffer
  pub request : ExchangeRequest
  pub by_creator : request.creator_user_id ≡ user
  pub request_live : leb request.expires_at now ≡ false
  pub rejectable : IsOpenOffer offer_id now offer request d

module _ (env : Env) (serial : IsSerial env) where
  withdraw_offer_claimed-IsGuarded :
      (offer_id user now : ℕ) (d : Db) (claim : Claim) (s : Session)
      → IsGuarded (CanWithdraw offer_id user now d) d s.base
      → SameMarket d s.db
      → Ensures
          (IsGuarded (CanWithdraw offer_id user now d) d)
          (λ _ _. Unit {0})
          (withdraw_offer_claimed offer_id user now claim env s)
  unfolding withdraw_offer_claimed
  withdraw_offer_claimed-IsGuarded offer_id user now d claim s i same =
      Ensures-bind (lock_existing_offer_context offer_id) _ s (lock_context env serial offer_id s i)
        λ c s₁ i₁ (e₁, rrow, orow, own, oid). raise_if-Ensures _ _ _ s₁ i₁ λ owned.
          raise_if-Ensures _ _ _ s₁ i₁ λ active. raise_if-Ensures _ _ _ s₁ i₁ λ live.
            raise_if-Ensures _ _ _ s₁ i₁ λ on_board. Ensures-IsGuarded _ (record {
              offer = c.offer;
              request = c.request;
              owned = ground (arith, owned);
              withdrawable = record {
                the_offer = oid;
                offer_row = rw same.1 at orow;
                request_row = rw same.0 at rrow;
                on_request = own;
                active = ground (arith, active);
                offer_live = live;
                on_board = ground (arith, on_board);
              };
            })

  -- When transactions run one after the other, a withdrawal commits nothing unless the user owns
  -- the offer, which is active, not expired, and made on a request that is still on the board.
  pub withdraw_offer-IsGuarded :
      (offer_id user : ℕ) (q : Option IdempotencyRequest) (d : Db)
      → IsGuarded
          (CanWithdraw offer_id user (env.clock 0) d)
          d
          (transact (withdraw_offer offer_id user q) env d).1
  unfolding withdraw_offer
  withdraw_offer-IsGuarded offer_id user q d =
      transact-Ensures {I = IsGuarded (CanWithdraw offer_id user (env.clock 0) d) d}
        (λ _ _. Unit {0}) _ env d
        (utc_now-Ensures _ _ (
          with_claim-IsGuarded env serial (CanWithdraw offer_id user (env.clock 0) d) d _ _
            (λ claim s i same. withdraw_offer_claimed-IsGuarded offer_id user _ d claim s i same) q
            _ (inl refl) refl))

  reject_offer_claimed-IsGuarded :
      (offer_id user now : ℕ) (d : Db) (claim : Claim) (s : Session)
      → IsGuarded (CanReject offer_id user now d) d s.base
      → SameMarket d s.db
      → Ensures
          (IsGuarded (CanReject offer_id user now d) d)
          (λ _ _. Unit {0})
          (reject_offer_claimed offer_id user now claim env s)
  unfolding reject_offer_claimed
  reject_offer_claimed-IsGuarded offer_id user now d claim s i same =
      Ensures-bind (lock_existing_offer_context offer_id) _ s (lock_context env serial offer_id s i)
        λ c s₁ i₁ (e₁, rrow, orow, own, oid). raise_if-Ensures _ _ _ s₁ i₁ λ active.
          raise_if-Ensures _ _ _ s₁ i₁ λ live. raise_if-Ensures _ _ _ s₁ i₁ λ by_creator.
            raise_if-Ensures _ _ _ s₁ i₁ λ on_board. raise_if-Ensures _ _ _ s₁ i₁ λ request_live.
              Ensures-IsGuarded _ (record {
                offer = c.offer;
                request = c.request;
                by_creator = ground (arith, by_creator);
                request_live = request_live;
                rejectable = record {
                  the_offer = oid;
                  offer_row = rw same.1 at orow;
                  request_row = rw same.0 at rrow;
                  on_request = own;
                  active = ground (arith, active);
                  offer_live = live;
                  on_board = ground (arith, on_board);
                };
              })

  -- When transactions run one after the other, a rejection commits nothing unless the user created
  -- the request, which is on the board and not expired, and the offer on it is active and not
  -- expired.
  pub reject_offer-IsGuarded :
      (offer_id user : ℕ) (q : Option IdempotencyRequest) (d : Db)
      → IsGuarded
          (CanReject offer_id user (env.clock 0) d)
          d
          (transact (reject_offer offer_id user q) env d).1
  unfolding reject_offer
  reject_offer-IsGuarded offer_id user q d =
      transact-Ensures {I = IsGuarded (CanReject offer_id user (env.clock 0) d) d} (λ _ _. Unit {0})
        _ env d
        (utc_now-Ensures _ _ (
          with_claim-IsGuarded env serial (CanReject offer_id user (env.clock 0) d) d _ _
            (λ claim s i same. reject_offer_claimed-IsGuarded offer_id user _ d claim s i same) q _
            (inl refl) refl))
