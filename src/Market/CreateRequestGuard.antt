-- ===== src/Market/CreateRequestGuard.antt =====
-- What `create_request` requires of the state in which it commits.
use escrow_fx_marketplace.Common.{
  ℕ, ◌≡◌, refl, ◌∙◌, ap, true, false, ◌&&◌, Option, some, String, arith, ◌==◌, inl, find,
}
use escrow_fx_marketplace.Domain.Errors.{ok}
use escrow_fx_marketplace.Domain.Decimal.{Decimal, ltb_number}
use escrow_fx_marketplace.Domain.Enums.{
  user_is_active, kyc_is_verified, currency_is_active, corridor_is_active,
}
use escrow_fx_marketplace.Domain.Entities.{User, Currency, Corridor}
use escrow_fx_marketplace.Store.Db.{Db}
use escrow_fx_marketplace.Store.Action.{Env, Session, transact}
use escrow_fx_marketplace.Store.Ensures.{
  Ensures, IsSerial, Ensures-bind, fetch-Ensures, raise_if-Ensures, utc_now-Ensures, lift-Ensures,
  transact-Ensures,
}
use escrow_fx_marketplace.Store.Users
use escrow_fx_marketplace.Store.References.{get_by_code, get_by_currency_pair}
use escrow_fx_marketplace.Store.Idempotency.{IdempotencyRequest, Claim}
use escrow_fx_marketplace.Service.Requests.{create_request, create_request_claimed}
use escrow_fx_marketplace.Service.Terms.{Terms, creation_terms}
use escrow_fx_marketplace.Market.ValidTerms.{IsListing, creation_terms-IsListing}
use escrow_fx_marketplace.Market.Frame.{SameMarket}
use escrow_fx_marketplace.Market.Guards.{IsGuarded, Ensures-IsGuarded, with_claim-IsGuarded}
use escrow_fx_marketplace.Market.LockedUsers.{lock_user}
use text.Mathlib.Text.{◌==◌ as str_eq}

-- The terms are valid, the user is active and verified, and the currencies and their corridor are
-- active, with the amount within the bounds of the currency that is sold.
pub record CanCreate (creator : ℕ) (from_code to_code : String) (terms : Terms) (d : Db)
    : Type 0 where
  pub user : User
  pub from_currency : Currency
  pub to_currency : Currency
  pub corridor : Corridor
  pub user_row : Users.by_id creator d ≡ some user
  pub active : user_is_active user.status ≡ true
  pub verified : kyc_is_verified user.kyc_status ≡ true
  pub from_row : find (λ c. str_eq c.code from_code) d.currencies ≡ some from_currency
  pub to_row : find (λ c. str_eq c.code to_code) d.currencies ≡ some to_currency
  pub from_active : currency_is_active from_currency.status ≡ true
  pub to_active : currency_is_active to_currency.status ≡ true
  pub not_too_small : ltb_number terms.amount from_currency.min_amount ≡ false
  pub not_too_large : ltb_number from_currency.max_amount terms.amount ≡ false
  pub corridor_row :
      find
        (λ c. c.from_currency_id == from_currency.id && c.to_currency_id == to_currency.id)
        d.corridors
      ≡ some corridor
  pub corridor_active : corridor_is_active corridor.status ≡ true

-- The same, for valid terms.
abbrev pub CanRequest :
    (creator : ℕ) (from_code to_code : String) (amount preferred : Decimal)
    (minimum : Option Decimal)
    → Db
    → Type 0
CanRequest creator from_code to_code amount preferred minimum d =
    (terms : Terms) × IsListing from_code to_code amount preferred minimum terms
    × CanCreate creator from_code to_code terms d

module _ (env : Env) (serial : IsSerial env) (creator : ℕ) (from_code to_code : String)
    (amount preferred : Decimal) (minimum : Option Decimal) (d : Db) where
  abbrev Guarded : Db → Type 0
  Guarded = IsGuarded (CanRequest creator from_code to_code amount preferred minimum d) d

  create_request_claimed-IsGuarded :
      (terms : Terms) (claim : Claim) (s : Session)
      → creation_terms from_code to_code amount preferred minimum ≡ ok terms
      → Guarded s.base
      → SameMarket d s.db
      → Ensures Guarded
          (λ _ _. Unit {0})
          (create_request_claimed creator from_code to_code terms claim env s)
  unfolding create_request_claimed get_by_code get_by_currency_pair
  create_request_claimed-IsGuarded terms claim s valid i same =
      Ensures-bind (Users.get_for_update creator) _ s (lock_user env serial Guarded creator s i)
        λ user s₁ i₁ (e, user_row). raise_if-Ensures _ _ _ s₁ i₁ λ active.
          raise_if-Ensures _ _ _ s₁ i₁ λ verified. fetch-Ensures _ _ _ s₁ i₁ λ sold sold_row.
            fetch-Ensures _ _ _ s₁ i₁ λ bought bought_row.
              raise_if-Ensures _ _ _ s₁ i₁ λ sold_active.
                raise_if-Ensures _ _ _ s₁ i₁ λ bought_active.
                  raise_if-Ensures _ _ _ s₁ i₁ λ not_too_small.
                    raise_if-Ensures _ _ _ s₁ i₁ λ not_too_large.
                      fetch-Ensures _ _ _ s₁ i₁ λ corridor corridor_row.
                        raise_if-Ensures _ _ _ s₁ i₁ λ corridor_active.
                          let currencies : s₁.db.currencies ≡ d.currencies =
                            ap (λ (d : Db). d.currencies) e ∙ same.4 in
                          Ensures-IsGuarded _ (
                            terms,
                            creation_terms-IsListing from_code to_code amount preferred minimum
                                valid,
                            record {
                              user = user;
                              from_currency = sold;
                              to_currency = bought;
                              corridor = corridor;
                              user_row = rw same.3 at user_row;
                              active = ground (arith, active);
                              verified = ground (arith, verified);
                              from_row = rw currencies at sold_row;
                              to_row = rw currencies at bought_row;
                              from_active = ground (arith, sold_active);
                              to_active = ground (arith, bought_active);
                              not_too_small = not_too_small;
                              not_too_large = not_too_large;
                              corridor_row =
                                  rw (ap (λ (d : Db). d.corridors) e ∙ same.5) at corridor_row;
                              corridor_active = ground (arith, corridor_active);
                            },
                          )

-- When transactions run one after the other, creating a request commits nothing unless its terms
-- are valid, the user is active and verified, the currencies of the two codes and the corridor
-- between them are active, and the amount is within the bounds of the currency that is sold.
pub create_request-IsGuarded :
    (env : Env)
    → IsSerial env
    → (creator : ℕ) (from_code to_code : String) (amount preferred : Decimal)
      (minimum : Option Decimal) (q : Option IdempotencyRequest) (d : Db)
    → IsGuarded
        (CanRequest creator from_code to_code amount preferred minimum d)
        d
        (transact (create_request creator from_code to_code amount preferred minimum q) env d).1
unfolding create_request
create_request-IsGuarded env serial creator from_code to_code amount preferred minimum q d =
    transact-Ensures
      {I = IsGuarded (CanRequest creator from_code to_code amount preferred minimum d) d}
      (λ _ _. Unit {0}) _ env d
      (lift-Ensures _ _ _ (inl refl) λ terms valid. utc_now-Ensures _ _ (
        with_claim-IsGuarded env serial
          (CanRequest creator from_code to_code amount preferred minimum d) d _ _
          (λ claim s i same.
            create_request_claimed-IsGuarded env serial creator from_code to_code amount preferred
              minimum d terms claim s valid i same)
          q _ (inl refl) refl))
