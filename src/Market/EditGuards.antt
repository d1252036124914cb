-- ===== src/Market/EditGuards.antt =====
-- What the edit of a request requires of the state in which it commits.
use escrow_fx_marketplace.Common.{
  some, ◌==◌, ℕ, ◌≡◌, refl, subst, ◌∙◌, true, false, arith, leb, inl, any, find,
}
use escrow_fx_marketplace.Domain.Lifecycle.{request_can_be_edited}
use escrow_fx_marketplace.Domain.Entities.{ExchangeRequest, User}
use escrow_fx_marketplace.Store.Db.{Db}
use escrow_fx_marketplace.Store.Action.{Env, Session, transact}
use escrow_fx_marketplace.Store.Ensures.{
  Ensures, IsSerial, Ensures-bind, fetch-Ensures, raise_if-Ensures, utc_now-Ensures, reads-Ensures,
  transact-Ensures, Ensures-then, raise_if_last-Ensures,
}
use escrow_fx_marketplace.Store.Requests
use escrow_fx_marketplace.Store.Users.{lock_users_in_order, user_of}
use escrow_fx_marketplace.Market.Reads.{IsRequestRow, lock-IsRequestRow}
use escrow_fx_marketplace.Market.Guards.{IsGuarded, Ensures-IsGuarded}
use escrow_fx_marketplace.Service.Requests.{update_request, require_active_verified_user}
use escrow_fx_marketplace.Domain.Enums.{UserStatus, KycStatus, user_is_active, kyc_is_verified}
use escrow_fx_marketplace.Store.Users
use escrow_fx_marketplace.Store.References.{get_currency}
use escrow_fx_marketplace.Market.LockedUsers.{lock_users, row_of}
use escrow_fx_marketplace.Service.Terms.{Changes}

-- The request may be edited by the user, who created it, at the time: nobody has made an offer.
pub record CanEdit (request_id user_id : ℕ) (changes : Changes) (now : ℕ) (d : Db) : Type 0 where
  pub request : ExchangeRequest
  pub user : User
  pub the_request : request.id ≡ request_id
  pub request_row : IsRequestRow request d
  pub by_creator : request.creator_user_id ≡ user_id
  pub user_row : Users.by_id user_id d ≡ some user
  pub active : user_is_active user.status ≡ true
  pub verified : kyc_is_verified user.kyc_status ≡ true
  pub editable : request_can_be_edited request.status ≡ true
  pub request_live : leb request.expires_at now ≡ false
  pub no_offers : any (λ o. o.request_id == request_id) d.offers ≡ false

module _ (env : Env) (serial : IsSerial env) where
  pub required-Ensures :
      {I : Db → Type 0} (status : UserStatus) (kyc : KycStatus) (s : Session)
      → I s.base
      → Ensures I
          (λ _ d. (d ≡ s.db) × (user_is_active status ≡ true) × (kyc_is_verified kyc ≡ true))
          (require_active_verified_user status kyc env s)
  unfolding require_active_verified_user
  required-Ensures status kyc s i = raise_if-Ensures _ _ _ s i λ active.
      raise_if_last-Ensures env _ _ s i
        λ verified. (refl, ground (arith, active), ground (arith, verified))

  -- When transactions run one after the other, an edit commits nothing unless the user created the
  -- request, is active and verified, and the request may be edited, has not expired and has never
  -- had an offer.
  pub update_request-IsGuarded :
      (id user : ℕ) (changes : Changes) (d : Db)
      → IsGuarded
          (CanEdit id user changes (env.clock 0) d)
          d
          (transact (update_request id user changes) env d).1
  unfolding update_request Requests.get user_of get_currency Requests.has_any_offers
  update_request-IsGuarded id user changes d =
      transact-Ensures {I = IsGuarded (CanEdit id user changes (env.clock 0) d) d} (λ _ _. Unit {0})
        _ env d
        (utc_now-Ensures _ _ (
          raise_if-Ensures _ _ _ _ (inl refl) λ _.
            fetch-Ensures _ _ _ _ (inl refl) λ initial_request _.
              raise_if-Ensures _ _ _ _ (inl refl) λ by_creator.
                Ensures-bind (lock_users_in_order _) _ _ (lock_users env serial _ _ _ (inl refl))
                  λ users s₁ i₁ (rows, e₁). fetch-Ensures _ _ _ s₁ i₁ λ owner found.
                    Ensures-then (require_active_verified_user _ _) _ s₁
                      (required-Ensures _ _ s₁ i₁)
                      λ s₂ i₂ (e₂, active, verified).
                        Ensures-bind (Requests.get_for_update id) _ s₂
                          (lock-IsRequestRow env serial id s₂ i₂)
                          λ request s₃ i₃ (e₃, rid, row). raise_if-Ensures _ _ _ s₃ i₃ λ unchanged.
                            raise_if-Ensures _ _ _ s₃ i₃ λ editable.
                              raise_if-Ensures _ _ _ s₃ i₃ λ live. reads-Ensures _ _ s₃ (
                                raise_if-Ensures _ _ _ s₃ i₃ λ none_made.
                                  Ensures-IsGuarded _ (record {
                                    request = request;
                                    user = owner;
                                    the_request = rid;
                                    request_row = rw (e₂ ∙ e₁) at row;
                                    by_creator = ground (arith, by_creator, unchanged);
                                    user_row = row_of d users user owner rows (
                                        subst (λ k. find (λ u. u.id == k) users ≡ some owner)
                                          (ground (arith, by_creator)) found);
                                    active = active;
                                    verified = verified;
                                    editable = ground (arith, editable);
                                    request_live = live;
                                    no_offers = rw (e₃ ∙ e₂ ∙ e₁) at none_made;
                                  }))))
