-- ===== src/Market/UpdateOfferGuard.antt =====
-- What `update_offer` requires of the state in which it commits.
use escrow_fx_marketplace.Common.{
  ℕ, ◌≡◌, refl, subst, ◌∙◌, true, false, Option, none, some, arith, leb, ◌==◌, inl, find, All,
}
use escrow_fx_marketplace.Domain.Decimal.{Number, Decimal, ltb_number}
use escrow_fx_marketplace.Domain.Enums.{user_is_active, kyc_is_verified}
use escrow_fx_marketplace.Domain.Entities.{User, ExchangeRequest, ExchangeOffer}
use escrow_fx_marketplace.Store.Db.{Db}
use escrow_fx_marketplace.Store.Action.{Env, Session, transact}
use escrow_fx_marketplace.Store.Ensures.{
  Ensures, IsSerial, Ensures-bind, fetch-Ensures, raise_if-Ensures, utc_now-Ensures, lift-Ensures,
  pure-Ensures, transact-Ensures,
}
use escrow_fx_marketplace.Store.Users
use escrow_fx_marketplace.Store.Users.{lock_users_in_order, user_of}
use escrow_fx_marketplace.Store.Requests
use escrow_fx_marketplace.Store.Offers
use escrow_fx_marketplace.Service.Offers.{
  OfferContext, lock_existing_offer_context, update_offer, is_below_minimum,
}
use escrow_fx_marketplace.Market.ValidTerms.{IsRate, rate_value-IsRate}
use escrow_fx_marketplace.Market.Reads.{lock-IsRequestRow, lock-IsOfferRow}
use escrow_fx_marketplace.Market.OfferGuards.{IsOpenOffer}
use escrow_fx_marketplace.Market.Guards.{IsGuarded, Ensures-IsGuarded}
use escrow_fx_marketplace.Market.LockedUsers.{lock_users, row_of}

-- The rate is not below the minimum, where there is one.
abbrev pub IsAtLeast : (minimum : Option Number) (rate : Number) → Type 0
IsAtLeast none rate = Unit {0}
IsAtLeast (some minimum) rate = ltb_number rate minimum ≡ false

is_below_minimum-IsAtLeast :
    (minimum : Option Number) (rate : Number)
    → is_below_minimum rate minimum ≡ false
    → IsAtLeast minimum rate
is_below_minimum-IsAtLeast none rate e = tt
is_below_minimum-IsAtLeast (some minimum) rate e = e

-- The offer is open, on a live request of which the new rate is not below the minimum, and its
-- owner is active and verified.
pub record CanReprice (offer_id user_id : ℕ) (offered_rate : Decimal) (now : ℕ) (d : Db)
    : Type 0 where
  pub rate : Number
  pub offer : ExchangeOffer
  pub request : ExchangeRequest
  pub user : User
  pub rate_valid : IsRate offered_rate rate
  pub owned : offer.offer_user_id ≡ user_id
  pub open_offer : IsOpenOffer offer_id now offer request d
  pub request_live : leb request.expires_at now ≡ false
  pub above_minimum : IsAtLeast request.min_rate rate
  pub user_row : Users.by_id user_id d ≡ some user
  pub active : user_is_active user.status ≡ true
  pub verified : kyc_is_verified user.kyc_status ≡ true

-- What the context of an offer is: rows of the database.
record IsContext (offer_id : ℕ) (c : OfferContext) (d : Db) : Type 0 where
  rows : All (λ u. Users.by_id u.id d ≡ some u) c.users
  request_row : Requests.by_id c.request.id d ≡ some c.request
  offer_row : Offers.by_id c.offer.id d ≡ some c.offer
  on_request : c.offer.request_id ≡ c.request.id
  the_offer : c.offer.id ≡ offer_id

module _ (env : Env) (serial : IsSerial env) where
  lock_existing_offer_context-Ensures :
      (I : Db → Type 0) (offer_id : ℕ) (s : Session)
      → I s.base
      → Ensures I (λ c _. IsContext offer_id c s.db) (lock_existing_offer_context offer_id env s)
  unfolding lock_existing_offer_context Offers.get Requests.get
  lock_existing_offer_context-Ensures I offer_id s i = fetch-Ensures _ _ _ s i λ initial_offer _.
      fetch-Ensures _ _ _ s i λ initial_request _.
        Ensures-bind (lock_users_in_order _) _ s (lock_users env serial I _ s i)
          λ users s₁ i₁ (rows, e₁).
            Ensures-bind (Requests.get_for_update _) _ s₁ (lock-IsRequestRow env serial _ s₁ i₁)
              λ request s₂ i₂ (e₂, rid, row).
                Ensures-bind (Offers.get_for_update _) _ s₂ (lock-IsOfferRow env serial _ s₂ i₂)
                  λ offer s₃ i₃ (e₃, oid, orow). raise_if-Ensures _ _ _ s₃ i₃ λ unchanged.
                    pure-Ensures env _ s₃ i₃ (record {
                      rows = rows;
                      request_row = rw e₁ at row;
                      offer_row = rw (e₂ ∙ e₁) at orow;
                      on_request = ground (arith, unchanged, rid);
                      the_offer = oid;
                    })

  -- When transactions run one after the other, changing the rate of an offer commits nothing unless
  -- the rate is valid and not below the minimum of the request, the offer is the user's, active and
  -- not expired, its request is still on the board and has not expired, and the user is active and
  -- verified.
  pub update_offer-IsGuarded :
      (offer_id user_id : ℕ) (offered_rate : Decimal) (d : Db)
      → IsGuarded
          (CanReprice offer_id user_id offered_rate (env.clock 0) d)
          d
          (transact (update_offer offer_id user_id offered_rate) env d).1
  unfolding update_offer user_of
  update_offer-IsGuarded offer_id user_id offered_rate d =
      transact-Ensures {I = IsGuarded (CanReprice offer_id user_id offered_rate (env.clock 0) d) d}
        (λ _ _. Unit {0}) _ env d
        (utc_now-Ensures _ _ (
          lift-Ensures _ _ _ (inl refl) λ rate valid.
            Ensures-bind (lock_existing_offer_context offer_id) _ _
              (lock_existing_offer_context-Ensures _ offer_id _ (inl refl))
              λ c s i h. raise_if-Ensures _ _ _ s i λ owned. fetch-Ensures _ _ _ s i λ user found.
                raise_if-Ensures _ _ _ s i λ active. raise_if-Ensures _ _ _ s i λ verified.
                  raise_if-Ensures _ _ _ s i λ offer_active.
                    raise_if-Ensures _ _ _ s i λ offer_live. raise_if-Ensures _ _ _ s i λ on_board.
                      raise_if-Ensures _ _ _ s i λ live. raise_if-Ensures _ _ _ s i λ above.
                        Ensures-IsGuarded _ (record {
                          rate = rate;
                          offer = c.offer;
                          request = c.request;
                          user = user;
                          rate_valid = rate_value-IsRate offered_rate valid;
                          owned = ground (arith, owned);
                          open_offer = record {
                            the_offer = h.the_offer;
                            offer_row = h.offer_row;
                            request_row = h.request_row;
                            on_request = h.on_request;
                            active = ground (arith, offer_active);
                            offer_live = offer_live;
                            on_board = ground (arith, on_board);
                          };
                          request_live = live;
                          above_minimum = is_below_minimum-IsAtLeast c.request.min_rate rate above;
                          user_row = row_of d c.users user_id user h.rows (
                              subst (λ k. find (λ u. u.id == k) c.users ≡ some user)
                                (ground (arith, owned)) found);
                          active = ground (arith, active);
                          verified = ground (arith, verified);
                        })))
