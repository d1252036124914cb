-- ===== src/Market/CreateOfferGuard.antt =====
-- What `create_offer` requires of the state in which it commits.
use escrow_fx_marketplace.Common.{
  ℕ, ◌≡◌, refl, subst, ◌∙◌, true, false, Option, some, List, arith, ◌==◌, inl, All, leb, ap,
}
use escrow_fx_marketplace.Domain.Enums.{user_is_active, kyc_is_verified}
use escrow_fx_marketplace.Domain.Entities.{User, ExchangeRequest}
use escrow_fx_marketplace.Store.Db.{Db}
use escrow_fx_marketplace.Store.Action.{Env, Session, transact}
use escrow_fx_marketplace.Store.Ensures.{
  Ensures, IsSerial, Ensures-bind, fetch-Ensures, fetch_last-Ensures, raise_if-Ensures,
  utc_now-Ensures, transact-Ensures, lift-Ensures,
}
use escrow_fx_marketplace.Store.Users.{user_of, lock_users_in_order, lock_order}
use escrow_fx_marketplace.Store.Users
use escrow_fx_marketplace.Store.Requests
use escrow_fx_marketplace.Market.Guards.{IsGuarded, Ensures-IsGuarded, with_claim-IsGuarded}
use escrow_fx_marketplace.Market.LockedUsers.{lock_users, row_of}
use escrow_fx_marketplace.Domain.Decimal.{Number, Decimal}
use escrow_fx_marketplace.Domain.Values.{rate_value}
use escrow_fx_marketplace.Domain.Errors.{ok}
use escrow_fx_marketplace.Store.Idempotency.{IdempotencyRequest, Claim}
use escrow_fx_marketplace.Service.Offers.{
  create_offer, create_offer_claimed, submit_offer, is_below_minimum,
}
use escrow_fx_marketplace.Market.Frame.{SameMarket}
use escrow_fx_marketplace.Market.Reads.{lock-IsRequestRow}

-- The rate is one that may be offered on the request, by an active and verified user who did not
-- create it.
pub record CanOffer (request_id user_id : ℕ) (offered_rate : Decimal) (now : ℕ) (d : Db)
    : Type 0 where
  pub rate : Number
  pub request : ExchangeRequest
  pub user : User
  pub rate_valid : rate_value offered_rate ≡ ok rate
  pub request_row : Requests.by_id request_id d ≡ some request
  pub not_own : (request.creator_user_id == user_id) ≡ false
  pub request_live : leb request.expires_at now ≡ false
  pub above_minimum : is_below_minimum rate request.min_rate ≡ false
  pub user_row : Users.by_id user_id d ≡ some user
  pub active : user_is_active user.status ≡ true
  pub verified : kyc_is_verified user.kyc_status ≡ true

module _ (env : Env) (serial : IsSerial env) (request_id user_id : ℕ) (offered_rate : Decimal)
    (now : ℕ) (d : Db) where
  submit_offer-IsGuarded :
      (rate : Number) (request : ExchangeRequest) (users : List User) (claim : Claim) (s : Session)
      → IsGuarded (CanOffer request_id user_id offered_rate now d) d s.base
      → rate_value offered_rate ≡ ok rate
      → Requests.by_id request_id d ≡ some request
      → (request.creator_user_id == user_id) ≡ false
      → All (λ u. Users.by_id u.id d ≡ some u) users
      → Ensures
          (IsGuarded (CanOffer request_id user_id offered_rate now d) d)
          (λ _ _. Unit {0})
          (submit_offer request_id user_id rate now request users claim env s)
  unfolding submit_offer user_of Requests.get_visible_details
  submit_offer-IsGuarded rate request users claim s i valid row not_own rows =
      fetch-Ensures _ _ _ s i λ user found. raise_if-Ensures _ _ _ s i λ active.
        raise_if-Ensures _ _ _ s i λ verified. fetch-Ensures _ _ _ s i λ _ _.
          raise_if-Ensures _ _ _ s i λ _. raise_if-Ensures _ _ _ s i λ above.
            Ensures-bind {P = λ _ _. Unit {0}} (Requests.get_visible_details request_id user_id) _ s
              (utc_now-Ensures _ s (fetch_last-Ensures env _ _ _ i λ _ _. tt))
              λ _ s₁ i₁ _. raise_if-Ensures _ _ _ s₁ i₁ λ live. Ensures-IsGuarded _ (record {
                rate = rate;
                request = request;
                user = user;
                rate_valid = valid;
                request_row = row;
                not_own = not_own;
                request_live = live;
                above_minimum = above;
                user_row = row_of d users user_id user rows found;
                active = ground (arith, active);
                verified = ground (arith, verified);
              })

  create_offer_claimed-IsGuarded :
      (rate : Number) (claim : Claim) (s : Session)
      → rate_value offered_rate ≡ ok rate
      → IsGuarded (CanOffer request_id user_id offered_rate now d) d s.base
      → SameMarket d s.db
      → Ensures
          (IsGuarded (CanOffer request_id user_id offered_rate now d) d)
          (λ _ _. Unit {0})
          (create_offer_claimed request_id user_id rate now claim env s)
  unfolding create_offer_claimed Requests.get
  create_offer_claimed-IsGuarded rate claim s valid i same =
      fetch-Ensures _ _ _ s i λ initial_request _. raise_if-Ensures _ _ _ s i λ other.
        Ensures-bind (lock_users_in_order _) _ s (lock_users env serial _ _ s i)
          λ users s₁ i₁ (rows, e₁).
            Ensures-bind (Requests.get_for_update request_id) _ s₁
              (lock-IsRequestRow env serial request_id s₁ i₁)
              λ request s₂ i₂ (e₂, rid, row). raise_if-Ensures _ _ _ s₂ i₂ λ unchanged.
                submit_offer-IsGuarded rate request users claim s₂ i₂ valid
                  (rw (ap (λ (d : Db). d.requests) e₁ ∙ same.0) at
                    (subst (λ k. Requests.by_id k s₁.db ≡ some request) rid row))
                  (ground (arith, other, unchanged)) (rw same.3 at rows)

-- When transactions run one after the other, making an offer commits nothing unless the rate is
-- valid and not below the request's minimum, the request is another user's and has not expired, and
-- the user is active and verified.
pub create_offer-IsGuarded :
    (env : Env)
    → IsSerial env
    → (request_id user_id : ℕ) (offered_rate : Decimal) (q : Option IdempotencyRequest) (d : Db)
    → IsGuarded
        (CanOffer request_id user_id offered_rate (env.clock 0) d)
        d
        (transact (create_offer request_id user_id offered_rate q) env d).1
unfolding create_offer
create_offer-IsGuarded env serial request_id user_id offered_rate q d =
    transact-Ensures {I = IsGuarded (CanOffer request_id user_id offered_rate (env.clock 0) d) d}
      (λ _ _. Unit {0}) _ env d
      (lift-Ensures _ _ _ (inl refl) λ rate valid. utc_now-Ensures _ _ (
        with_claim-IsGuarded env serial (CanOffer request_id user_id offered_rate (env.clock 0) d) d
          _ _
          (λ claim s i same.
            create_offer_claimed-IsGuarded env serial request_id user_id offered_rate (env.clock 0)
              d rate claim s valid i same)
          q _ (inl refl) refl))
