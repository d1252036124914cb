-- ===== src/Market/RelistGuard.antt =====
-- What `relist_request` requires of the state in which it commits.
use escrow_fx_marketplace.Common.{
  ℕ, ◌≡◌, refl, subst, ◌∙◌, ap, true, false, ◌&&◌, Option, some, arith, ◌==◌, ◌⊎◌, inl, inr, find,
  any,
}
use escrow_fx_marketplace.Domain.Enums.{
  ExchangeRequestStatus, user_is_active, kyc_is_verified, currency_is_active, corridor_is_active,
}
use escrow_fx_marketplace.Domain.Lifecycle.{request_can_be_relisted}
use escrow_fx_marketplace.Domain.Entities.{User, Currency, Corridor, ExchangeRequest}
use escrow_fx_marketplace.Store.Db.{Db}
use escrow_fx_marketplace.Store.Action.{Env, Session, transact}
use escrow_fx_marketplace.Store.Ensures.{
  Ensures, IsSerial, Ensures-bind, Ensures-then, fetch-Ensures, raise_if-Ensures, utc_now-Ensures,
  lift-Ensures, reads-Ensures, transact-Ensures,
}
use escrow_fx_marketplace.Store.Users
use escrow_fx_marketplace.Store.Users.{lock_users_in_order, user_of}
use escrow_fx_marketplace.Store.Requests
use escrow_fx_marketplace.Store.References.{get_currency, get_by_currency_pair}
use escrow_fx_marketplace.Store.Idempotency.{IdempotencyRequest, Claim}
use escrow_fx_marketplace.Service.Requests.{
  relist_request, relist_request_claimed, require_active_verified_user,
}
use escrow_fx_marketplace.Service.Terms.{Terms, Changes}
use escrow_fx_marketplace.Market.Frame.{SameMarket}
use escrow_fx_marketplace.Market.ValidTerms.{IsChange, changed_terms-IsChange}
use escrow_fx_marketplace.Market.Reads.{IsRequestRow, lock-IsRequestRow}
use escrow_fx_marketplace.Market.EditGuards.{required-Ensures}
use escrow_fx_marketplace.Market.Guards.{IsGuarded, Ensures-IsGuarded, with_claim-IsGuarded}
use escrow_fx_marketplace.Market.LockedUsers.{lock_users, row_of}

-- A request that was cancelled or has expired.
abbrev pub IsEnded : ExchangeRequestStatus → Type 0
IsEnded status =
    (status ≡ ExchangeRequestStatus.cancelled) ⊎ (status ≡ ExchangeRequestStatus.expired)

request_can_be_relisted-IsEnded :
    (status : ExchangeRequestStatus) → request_can_be_relisted status ≡ true → IsEnded status
request_can_be_relisted-IsEnded ExchangeRequestStatus.request_open e = absurd (cc)
request_can_be_relisted-IsEnded ExchangeRequestStatus.offer_pending e = absurd (cc)
request_can_be_relisted-IsEnded ExchangeRequestStatus.terms_locked e = absurd (cc)
request_can_be_relisted-IsEnded ExchangeRequestStatus.cancelled e = inl refl
request_can_be_relisted-IsEnded ExchangeRequestStatus.expired e = inr refl

-- The request is one that its creator, an active and verified user, may list again, once, and the
-- new terms are valid between active currencies.
pub record CanRelist (id user_id : ℕ) (changes : Changes) (d : Db) : Type 0 where
  pub original : ExchangeRequest
  pub user : User
  pub from_currency : Currency
  pub to_currency : Currency
  pub corridor : Corridor
  pub terms : Terms
  pub the_request : original.id ≡ id
  pub request_row : IsRequestRow original d
  pub by_creator : original.creator_user_id ≡ user_id
  pub user_row : Users.by_id user_id d ≡ some user
  pub active : user_is_active user.status ≡ true
  pub verified : kyc_is_verified user.kyc_status ≡ true
  pub relistable : IsEnded original.status
  pub no_successor :
      any (λ r. Requests.relists (some original.id) r.relisted_from_request_id) d.requests ≡ false
  pub from_row : find (λ c. c.id == original.from_currency_id) d.currencies ≡ some from_currency
  pub to_row : find (λ c. c.id == original.to_currency_id) d.currencies ≡ some to_currency
  pub from_active : currency_is_active from_currency.status ≡ true
  pub to_active : currency_is_active to_currency.status ≡ true
  pub corridor_row :
      find
        (λ c. c.from_currency_id == from_currency.id && c.to_currency_id == to_currency.id)
        d.corridors
      ≡ some corridor
  pub corridor_active : corridor_is_active corridor.status ≡ true
  pub terms_valid :
      IsChange changes original from_currency.min_amount from_currency.max_amount terms

module _ (env : Env) (serial : IsSerial env) (id user_id : ℕ) (changes : Changes) (d : Db) where
  abbrev Guarded : Db → Type 0
  Guarded = IsGuarded (CanRelist id user_id changes d) d

  relist_request_claimed-IsGuarded :
      (now : ℕ) (claim : Claim) (s : Session)
      → Guarded s.base
      → SameMarket d s.db
      → Ensures Guarded
          (λ _ _. Unit {0})
          (relist_request_claimed id user_id now changes claim env s)
  unfolding relist_request_claimed Requests.get user_of get_currency get_by_currency_pair
      Requests.has_relisted_successor
  relist_request_claimed-IsGuarded now claim s i same = fetch-Ensures _ _ _ s i λ initial_request _.
      raise_if-Ensures _ _ _ s i λ by_creator.
        Ensures-bind (lock_users_in_order _) _ s (lock_users env serial Guarded _ s i)
          λ users s₁ i₁ (rows, e₁). fetch-Ensures _ _ _ s₁ i₁ λ owner found.
            Ensures-then (require_active_verified_user _ _) _ s₁
              (required-Ensures env serial _ _ s₁ i₁)
              λ s₂ i₂ (e₂, active, verified).
                Ensures-bind (Requests.get_for_update id) _ s₂
                  (lock-IsRequestRow env serial id s₂ i₂)
                  λ original s₃ i₃ (e₃, rid, row). raise_if-Ensures _ _ _ s₃ i₃ λ unchanged.
                    raise_if-Ensures _ _ _ s₃ i₃ λ relistable. reads-Ensures _ _ s₃ (
                      raise_if-Ensures _ _ _ s₃ i₃ λ no_successor.
                        fetch-Ensures _ _ _ s₃ i₃ λ sold sold_row.
                          fetch-Ensures _ _ _ s₃ i₃ λ bought bought_row.
                            raise_if-Ensures _ _ _ s₃ i₃ λ both_active.
                              fetch-Ensures _ _ _ s₃ i₃ λ corridor corridor_row.
                                raise_if-Ensures _ _ _ s₃ i₃ λ corridor_active.
                                  lift-Ensures _ _ s₃ i₃ λ terms valid.
                                    let kept : s₃.db ≡ s.db = e₃ ∙ e₂ ∙ e₁ in
                                    let currencies : s₃.db.currencies ≡ d.currencies =
                                      ap (λ (d : Db). d.currencies) kept ∙ same.4 in
                                    Ensures-IsGuarded _ (record {
                                      original = original;
                                      user = owner;
                                      from_currency = sold;
                                      to_currency = bought;
                                      corridor = corridor;
                                      terms = terms;
                                      the_request = rid;
                                      request_row =
                                          rw (ap (λ (d : Db). d.requests) (e₂ ∙ e₁) ∙ same.0) at
                                            row;
                                      by_creator = ground (arith, by_creator, unchanged);
                                      user_row = row_of d users user_id owner (rw same.3 at rows) (
                                          subst (λ k. find (λ u. u.id == k) users ≡ some owner)
                                            (ground (arith, by_creator)) found);
                                      active = active;
                                      verified = verified;
                                      relistable =
                                          request_can_be_relisted-IsEnded original.status
                                            (ground (arith, relistable));
                                      no_successor =
                                          rw (ap (λ (d : Db). d.requests) kept ∙ same.0) at
                                            no_successor;
                                      from_row = rw currencies at sold_row;
                                      to_row = rw currencies at bought_row;
                                      from_active = ground (arith, both_active);
                                      to_active = ground (arith, both_active);
                                      corridor_row =
                                          rw (ap (λ (d : Db). d.corridors) kept ∙ same.5) at
                                            corridor_row;
                                      corridor_active = ground (arith, corridor_active);
                                      terms_valid =
                                          changed_terms-IsChange changes original _ _ valid;
                                    }))

-- When transactions run one after the other, relisting a request commits nothing unless the user
-- created it, is active and verified, the request was cancelled or has expired and has not been
-- relisted, its currencies and their corridor are active, and the changed terms are valid within the
-- currency's bounds.
pub relist_request-IsGuarded :
    (env : Env)
    → IsSerial env
    → (id user_id : ℕ) (changes : Changes) (q : Option IdempotencyRequest) (d : Db)
    → IsGuarded
        (CanRelist id user_id changes d)
        d
        (transact (relist_request id user_id changes q) env d).1
unfolding relist_request
relist_request-IsGuarded env serial id user_id changes q d =
    transact-Ensures {I = IsGuarded (CanRelist id user_id changes d) d} (λ _ _. Unit {0}) _ env d
      (utc_now-Ensures _ _ (
        with_claim-IsGuarded env serial (CanRelist id user_id changes d) d _ _
          (λ claim s i same.
            relist_request_claimed-IsGuarded env serial id user_id changes d _ claim s i same)
          q _ (inl refl) refl))
