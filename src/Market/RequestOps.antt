-- ===== src/Market/RequestOps.antt =====
-- `create_request` and `relist_request` keep the invariant.
use escrow_fx_marketplace.Common.{ℕ, ◌≡◌, refl, ◌∙◌, Option, String}
use escrow_fx_marketplace.Domain.Decimal.{Decimal}
use escrow_fx_marketplace.Domain.Entities.{ExchangeRequest}
use escrow_fx_marketplace.Store.Db.{Db, Payload, request_details}
use escrow_fx_marketplace.Store.Action.{Env, Session, ◌>>=◌, ◌>>◌, transact}
use escrow_fx_marketplace.Store.Ensures.{
  Ensures, IsSerial, Ensures-bind, Ensures-then, fetch-Ensures, fetch_last-Ensures,
  raise_if-Ensures, utc_now-Ensures, reads-Ensures, pure-Ensures, lift-Ensures, transact-Ensures,
  wait-Ensures, uuid4-Ensures, write_if-Ensures, raise_if_last-Ensures,
}
use escrow_fx_marketplace.Store.Requests
use escrow_fx_marketplace.Store.Outbox.{publish}
use escrow_fx_marketplace.Store.Idempotency.{IdempotencyRequest, Claim}
use escrow_fx_marketplace.Service.Outcome.{conclude}
use escrow_fx_marketplace.Market.Invariant.{IsConsistent}
use escrow_fx_marketplace.Market.Frame.{SameMarket-consistent, publish-Same, lock_users-Same}
use escrow_fx_marketplace.Market.Brackets.{conclude-IsConsistent, with_claim-IsConsistent}
use escrow_fx_marketplace.Store.Users
use escrow_fx_marketplace.Store.Users.{user_of, lock_users_in_order}
use escrow_fx_marketplace.Store.References.{get_by_code, get_currency, get_by_currency_pair}
use escrow_fx_marketplace.Domain.Enums.{UserStatus, KycStatus}
use escrow_fx_marketplace.Service.Requests.{
  create_request, create_request_claimed, relist_request, relist_request_claimed,
  require_active_verified_user,
}
use escrow_fx_marketplace.Service.Terms.{Terms, Changes}
use escrow_fx_marketplace.Market.RequestWrites.{insert_request-IsConsistent}
use escrow_fx_marketplace.Market.Reads.{lock-IsRequestRow}

module _ (env : Env) (serial : IsSerial env) where
  lock_user-Same :
      (id : ℕ) (s : Session)
      → IsConsistent s.base
      → Ensures IsConsistent (λ _ d. d ≡ s.db) (Users.get_for_update id env s)
  unfolding Users.get_for_update
  lock_user-Same id s i = wait-Ensures serial _ s (fetch_last-Ensures env _ _ _ i λ _ _. refl)

  pub require-Same :
      (status : UserStatus) (kyc : KycStatus) (s : Session)
      → IsConsistent s.base
      → Ensures IsConsistent (λ _ d. d ≡ s.db) (require_active_verified_user status kyc env s)
  unfolding require_active_verified_user
  require-Same status kyc s i =
      raise_if-Ensures _ _ _ s i λ _. raise_if_last-Ensures env _ _ s i λ _. refl

  add_request :
      (r : ExchangeRequest) (s : Session)
      → IsConsistent s.base
      → IsConsistent s.db
      → Ensures IsConsistent (λ _ d. IsConsistent d) (Requests.add r env s)
  unfolding Requests.add
  add_request r s i h =
      write_if-Ensures _ _ _ _ s i
        λ free. pure-Ensures env _ _ i (insert_request-IsConsistent s.db r h free)

  pub details-Same :
      (id user : ℕ) (s : Session)
      → IsConsistent s.base
      → Ensures IsConsistent (λ _ d. d ≡ s.db) (Requests.get_details_for_user id user env s)
  unfolding Requests.get_details_for_user
  details-Same id user s i = fetch_last-Ensures env _ _ s i λ _ _. refl

  -- The common end of the requests' mutations: an event, the response, and the commit.
  pub finish_request :
      (id viewer code now : ℕ) (claim : Claim) (payload : Payload) (aggregate : ℕ)
      (recipient : Option ℕ) (s : Session)
      → IsConsistent s.base
      → IsConsistent s.db
      → Ensures IsConsistent
          (λ _ d. IsConsistent d)
          ((do
            publish payload aggregate recipient
            details ← Requests.get_details_for_user id viewer
            conclude claim code (request_details details) now)
            env s)
  finish_request id viewer code now claim payload aggregate recipient s i h =
      Ensures-then (publish payload aggregate recipient) _ s
        (publish-Same env payload aggregate recipient s i)
        λ s₁ i₁ same.
          Ensures-bind (Requests.get_details_for_user id viewer) _ s₁ (details-Same id viewer s₁ i₁)
            λ details s₂ i₂ e₂.
              conclude-IsConsistent env claim code _ now s₂ i₂
                (rw e₂ (SameMarket-consistent s.db s₁.db same h))

  create_request_claimed-IsConsistent :
      (creator : ℕ) (from_code to_code : String) (terms : Terms) (claim : Claim) (s : Session)
      → IsConsistent s.base
      → IsConsistent s.db
      → Ensures IsConsistent
          (λ _ d. IsConsistent d)
          (create_request_claimed creator from_code to_code terms claim env s)
  unfolding create_request_claimed get_by_code get_by_currency_pair
  create_request_claimed-IsConsistent creator from_code to_code terms claim s i h =
      Ensures-bind (Users.get_for_update creator) _ s (lock_user-Same creator s i) λ user s₁ i₁ e₁.
        raise_if-Ensures _ _ _ s₁ i₁ λ _. raise_if-Ensures _ _ _ s₁ i₁ λ _.
          fetch-Ensures _ _ _ s₁ i₁ λ _ _. fetch-Ensures _ _ _ s₁ i₁ λ _ _.
            raise_if-Ensures _ _ _ s₁ i₁ λ _. raise_if-Ensures _ _ _ s₁ i₁ λ _.
              raise_if-Ensures _ _ _ s₁ i₁ λ _. raise_if-Ensures _ _ _ s₁ i₁ λ _.
                fetch-Ensures _ _ _ s₁ i₁ λ _ _. raise_if-Ensures _ _ _ s₁ i₁ λ _.
                  utc_now-Ensures _ s₁ (
                    uuid4-Ensures _ _ (
                      Ensures-bind (Requests.add _) _ _ (add_request _ _ i₁ (rw e₁ h))
                        λ created s₂ i₂ h₂. finish_request _ _ _ _ _ _ _ _ s₂ i₂ h₂))

  -- When transactions run one after the other, creating a request, whatever the outcome,
  -- leaves a committed marketplace consistent that was so before.
  pub create_request-IsConsistent :
      (creator : ℕ) (from_code to_code : String) (amount preferred : Decimal)
      (minimum : Option Decimal) (q : Option IdempotencyRequest) (d : Db)
      → IsConsistent d
      → IsConsistent
          (transact (create_request creator from_code to_code amount preferred minimum q) env d).1
  unfolding create_request
  create_request-IsConsistent creator from_code to_code amount preferred minimum q d h =
      transact-Ensures (λ _ d. IsConsistent d) _ env d
        (lift-Ensures _ _ _ h λ terms _. utc_now-Ensures _ _ (
          with_claim-IsConsistent env serial q _ _ _ h h λ claim s i h.
            create_request_claimed-IsConsistent creator from_code to_code terms claim s i h))

  relist_request_claimed-IsConsistent :
      (id user now : ℕ) (changes : Changes) (claim : Claim) (s : Session)
      → IsConsistent s.base
      → IsConsistent s.db
      → Ensures IsConsistent
          (λ _ d. IsConsistent d)
          (relist_request_claimed id user now changes claim env s)
  unfolding relist_request_claimed Requests.get user_of get_currency get_by_currency_pair
      Requests.has_relisted_successor
  relist_request_claimed-IsConsistent id user now changes claim s i h =
      fetch-Ensures _ _ _ s i λ initial_request _. raise_if-Ensures _ _ _ s i λ _.
        Ensures-bind (lock_users_in_order _) _ s (lock_users-Same env serial _ s i)
          λ users s₁ i₁ e₁. fetch-Ensures _ _ _ s₁ i₁ λ owner _.
            Ensures-then (require_active_verified_user _ _) _ s₁ (require-Same _ _ s₁ i₁)
              λ s₂ i₂ e₂.
                Ensures-bind (Requests.get_for_update id) _ s₂
                  (lock-IsRequestRow env serial id s₂ i₂)
                  λ original s₃ i₃ (e₃, _, _). raise_if-Ensures _ _ _ s₃ i₃ λ _.
                    raise_if-Ensures _ _ _ s₃ i₃ λ _. reads-Ensures _ _ s₃ (
                      raise_if-Ensures _ _ _ s₃ i₃ λ _. fetch-Ensures _ _ _ s₃ i₃ λ _ _.
                        fetch-Ensures _ _ _ s₃ i₃ λ _ _. raise_if-Ensures _ _ _ s₃ i₃ λ _.
                          fetch-Ensures _ _ _ s₃ i₃ λ _ _. raise_if-Ensures _ _ _ s₃ i₃ λ _.
                            lift-Ensures _ _ s₃ i₃ λ terms _. uuid4-Ensures _ s₃ (
                              Ensures-bind (Requests.add _) _ _
                                (add_request _ _ i₃ (rw (e₃ ∙ e₂ ∙ e₁) h))
                                λ created s₄ i₄ h₄. finish_request _ _ _ _ _ _ _ _ s₄ i₄ h₄))

  -- When transactions run one after the other, relisting a request, whatever the outcome,
  -- leaves a committed marketplace consistent that was so before.
  pub relist_request-IsConsistent :
      (id user : ℕ) (changes : Changes) (q : Option IdempotencyRequest) (d : Db)
      → IsConsistent d
      → IsConsistent (transact (relist_request id user changes q) env d).1
  unfolding relist_request
  relist_request-IsConsistent id user changes q d h =
      transact-Ensures (λ _ d. IsConsistent d) _ env d
        (utc_now-Ensures _ _ (
          with_claim-IsConsistent env serial q _ _ _ h h
            λ claim s i h. relist_request_claimed-IsConsistent id user _ changes claim s i h))
