-- ===== src/Market/Brackets.antt =====
-- What the mutations share: writes of one row, the idempotency bracket, and the end.
use escrow_fx_marketplace.Common.{ℕ, ◌≡◌, refl, true, false, Option, arith}
use escrow_fx_marketplace.Domain.Enums.{ExchangeRequestStatus, request_is_pending}
use escrow_fx_marketplace.Domain.Lifecycle.{request_can_accept_offers}
use escrow_fx_marketplace.Domain.Entities.{ExchangeRequest, ExchangeOffer}
use escrow_fx_marketplace.Store.Db.{Response, Payload, offer_details, Db}
use escrow_fx_marketplace.Store.Action.{Env, Session, Action, ◌>>=◌, ◌>>◌}
use escrow_fx_marketplace.Store.Ensures.{
  Ensures, IsSerial, Ensures-bind, Ensures-then, fetch-Ensures, fetch_last-Ensures, pure-Ensures,
  write_last-Ensures, commit-Ensures,
}
use escrow_fx_marketplace.Store.Requests
use escrow_fx_marketplace.Store.Offers
use escrow_fx_marketplace.Store.Outbox.{publish}
use escrow_fx_marketplace.Store.Idempotency.{
  IdempotencyRequest, Claim, unkeyed, claimed, replay, claim_idempotency, complete_idempotency,
}
use escrow_fx_marketplace.Service.Outcome.{Outcome, with_claim, unless_replay, conclude}
use escrow_fx_marketplace.Market.Invariant.{request_is_locked, IsConsistent}
use escrow_fx_marketplace.Market.Frame.{
  SameMarket-consistent, publish-Same, complete-Same, claim_idempotency-Same,
}

pub pending-unlocked :
    (status : ExchangeRequestStatus)
    → request_is_pending status ≡ true
    → request_is_locked status ≡ false
pending-unlocked status e = ground arith

pub board-unlocked :
    (status : ExchangeRequestStatus)
    → request_can_accept_offers status ≡ true
    → request_is_locked status ≡ false
board-unlocked status e = ground arith

module _ {I : Db → Type 0} (env : Env) where
  pub update_offer_row :
      (o : ExchangeOffer) (s : Session)
      → I s.base
      → Ensures I (λ _ d. d ≡ Offers.save o s.db) (Offers.update o env s)
  unfolding Offers.update
  update_offer_row o s i = fetch-Ensures _ _ _ s i λ _ _. write_last-Ensures env _ s i refl

  pub update_request_row :
      (r : ExchangeRequest) (s : Session)
      → I s.base
      → Ensures I (λ _ d. d ≡ Requests.save r s.db) (Requests.update r env s)
  unfolding Requests.update
  update_request_row r s i = fetch-Ensures _ _ _ s i λ _ _. write_last-Ensures env _ s i refl

module _ (env : Env) where
  -- The end of a mutation: what is committed is what the transaction saw.
  pub conclude-IsConsistent :
      (claim : Claim) (code : ℕ) (body : Response) (now : ℕ) (s : Session)
      → IsConsistent s.base
      → IsConsistent s.db
      → Ensures IsConsistent (λ _ d. IsConsistent d) (conclude claim code body now env s)
  unfolding conclude
  conclude-IsConsistent claim code body now s i h =
      Ensures-then (complete_idempotency claim code body now) _ s
        (complete-Same env claim code body now s i)
        λ s₁ i₁ same.
          let h₁ = SameMarket-consistent s.db s₁.db same h in
          commit-Ensures _ s₁ (pure-Ensures env _ _ h₁ h₁)

module _ (env : Env) (serial : IsSerial env) where
  -- The idempotency bracket: a replay returns, and a claim leaves the marketplace alone.
  pub with_claim-IsConsistent :
      (q : Option IdempotencyRequest) (now : ℕ) (rest : Claim → Action Outcome) (s : Session)
      → IsConsistent s.base
      → IsConsistent s.db
      → ((claim : Claim) (s : Session)
          → IsConsistent s.base
          → IsConsistent s.db
          → Ensures IsConsistent (λ _ d. IsConsistent d) (rest claim env s))
      → Ensures IsConsistent (λ _ d. IsConsistent d) (with_claim q now rest env s)
  unfolding with_claim
  with_claim-IsConsistent q now rest s i h keep =
      Ensures-bind (claim_idempotency q now) _ s (claim_idempotency-Same env serial q now s i)
        λ claim s₁ i₁ same. after claim s₁ i₁ (SameMarket-consistent s.db s₁.db same h)
    where
      after :
          (claim : Claim) (s : Session)
          → IsConsistent s.base
          → IsConsistent s.db
          → Ensures IsConsistent (λ _ d. IsConsistent d) (unless_replay claim rest env s)
      after (replay code body) s i h = unfold unless_replay in pure-Ensures env _ s i h
      after unkeyed s i h = unfold unless_replay in keep unkeyed s i h
      after (claimed r) s i h = unfold unless_replay in keep (claimed r) s i h

  -- The common end of the offers' mutations: an event, the response, and the commit.
  pub finish_offer :
      (offer_id viewer code now : ℕ) (claim : Claim) (payload : Payload) (aggregate : ℕ)
      (recipient : Option ℕ) (s : Session)
      → IsConsistent s.base
      → IsConsistent s.db
      → Ensures IsConsistent
          (λ _ d. IsConsistent d)
          ((do
            publish payload aggregate recipient
            details ← Offers.get_visible_details offer_id viewer
            conclude claim code (offer_details details) now)
            env s)
  finish_offer offer_id viewer code now claim payload aggregate recipient s i h =
      Ensures-then (publish payload aggregate recipient) _ s
        (publish-Same env payload aggregate recipient s i)
        λ s₁ i₁ same.
          Ensures-bind (Offers.get_visible_details offer_id viewer) _ s₁
            (visible offer_id viewer s₁ i₁)
            λ details s₂ i₂ e₂.
              conclude-IsConsistent env claim code _ now s₂ i₂
                (rw e₂ (SameMarket-consistent s.db s₁.db same h))
    where
      visible :
          (offer_id viewer : ℕ) (s : Session)
          → IsConsistent s.base
          → Ensures IsConsistent
              (λ _ d. d ≡ s.db)
              (Offers.get_visible_details offer_id viewer env s)
      visible offer_id viewer s i =
          unfold Offers.get_visible_details in
          fetch-Ensures _ _ _ s i λ row _. fetch_last-Ensures env _ _ s i λ _ _. refl
