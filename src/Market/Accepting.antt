-- ===== src/Market/Accepting.antt =====
-- What `accept_offer` commits, when it commits something.
use escrow_fx_marketplace.Common.{
  ℕ, ◌≡◌, refl, ◌∙◌, ap, true, false, Option, some, List, [], ◌∷◌, arith, leb, ◌++◌, ◌==◌, ◌&&◌,
  find,
}
use escrow_fx_marketplace.Domain.Lifecycle.{offer_is_active, request_can_accept_offers}
use escrow_fx_marketplace.Domain.Entities.{
  ExchangeRequest, ExchangeOffer, Corridor, User, TradeContract,
}
use escrow_fx_marketplace.Store.Db.{Db, Payload}
use escrow_fx_marketplace.Store.Action.{Env, Session, for_each}
use escrow_fx_marketplace.Store.Ensures.{
  Ensures, Ensures-bind, Ensures-then, fetch-Ensures, raise_if-Ensures, pure-Ensures,
  Ensures-weaken, uuid4-Ensures, raise_if_last-Ensures, for_each-Ensures, when-Ensures,
  write_if-Ensures,
}
use escrow_fx_marketplace.Store.Requests
use escrow_fx_marketplace.Store.Offers
use escrow_fx_marketplace.Market.Frame.{publish-Same}
use escrow_fx_marketplace.Market.Reads.{IsRequestRow, IsOfferRow}
use escrow_fx_marketplace.Market.Brackets.{update_request_row, update_offer_row}
use escrow_fx_marketplace.Store.Users.{user_of}
use escrow_fx_marketplace.Store.Trades
use escrow_fx_marketplace.Service.Trades.{
  lock_terms, check_acceptable, corridor_for_trade, corridor_of, trade_for, settle_offer,
  announce_settled,
}
use escrow_fx_marketplace.Domain.Enums.{corridor_is_active}
use escrow_fx_marketplace.Store.Outbox.{publish}

-- The state in which the offer may be accepted by the user at the time.
pub record CanAccept (offer_id user now : ℕ) (request : ExchangeRequest) (offer : ExchangeOffer)
    (corridor : Corridor) (d : Db) : Type 0 where
  pub the_offer : offer.id ≡ offer_id
  pub offer_row : IsOfferRow offer d
  pub request_row : IsRequestRow request d
  pub on_request : offer.request_id ≡ request.id
  pub by_creator : request.creator_user_id ≡ user
  pub on_board : request_can_accept_offers request.status ≡ true
  pub request_live : leb request.expires_at now ≡ false
  pub active : offer_is_active offer.status ≡ true
  pub offer_live : leb offer.expires_at now ≡ false
  pub corridor_row :
      find
        (λ c.
          c.from_currency_id == request.from_currency_id
          && c.to_currency_id == request.to_currency_id)
        d.corridors
      ≡ some corridor
  pub corridor_active : corridor_is_active corridor.status ≡ true

-- One trade is added, on the terms of the request and the offer.
pub record IsAcceptance (offer_id user now : ℕ) (before after : Db) : Type 0 where
  pub request : ExchangeRequest
  pub offer : ExchangeOffer
  pub corridor : Corridor
  pub trade_id : ℕ
  pub allowed : CanAccept offer_id user now request offer corridor before
  pub contract : after.trades ≡ before.trades ++ trade_for trade_id now request offer corridor ∷ []

module _ {I : Db → Type 0} (env : Env) where
  pub check_acceptable-Ensures :
      (user now : ℕ) (users : List User) (request : ExchangeRequest) (offer : ExchangeOffer)
      (s : Session)
      → I s.base
      → Ensures I
          (λ _ d.
            (d ≡ s.db)
            × (request_can_accept_offers request.status ≡ true)
            × (leb request.expires_at now ≡ false)
            × (offer_is_active offer.status ≡ true)
            × (leb offer.expires_at now ≡ false))
          (check_acceptable user now users request offer env s)
  unfolding check_acceptable user_of
  check_acceptable-Ensures user now users request offer s i = fetch-Ensures _ _ _ s i λ _ _.
      raise_if-Ensures _ _ _ s i λ _. fetch-Ensures _ _ _ s i λ _ _. raise_if-Ensures _ _ _ s i λ _.
        raise_if-Ensures _ _ _ s i λ unsettled. raise_if-Ensures _ _ _ s i λ live.
          raise_if-Ensures _ _ _ s i λ active. raise_if_last-Ensures env _ _ s i λ offer_live.
            (refl, ground (arith, unsettled), live, ground (arith, active), offer_live)

  pub corridor-Ensures :
      (request : ExchangeRequest) (s : Session)
      → I s.base
      → Ensures I
          (λ c d.
            (d ≡ s.db) × (corridor_of request s.db ≡ some c) × (corridor_is_active c.status ≡ true))
          (corridor_for_trade request env s)
  unfolding corridor_for_trade
  corridor-Ensures request s i = fetch-Ensures _ _ _ s i λ c row.
      raise_if-Ensures _ _ _ s i
        λ active. pure-Ensures env c s i (refl, row, ground (arith, active))

  settle-trades :
      (request_id accepted_id trade_id now : ℕ) (x : ExchangeOffer) (before : List TradeContract)
      (s : Session)
      → I s.base
      → s.db.trades ≡ before
      → Ensures I
          (λ _ d. d.trades ≡ before)
          (settle_offer request_id accepted_id trade_id now x env s)
  unfolding settle_offer announce_settled
  settle-trades request_id accepted_id trade_id now x before s i e =
      when-Ensures env _ _ _ s i
        (λ _. Ensures-then (Offers.update _) _ s (update_offer_row env _ s i) λ s₁ i₁ e₁.
          Ensures-weaken (publish-Same env _ _ _ s₁ i₁)
            λ _ d same. same.2 ∙ ap (λ (d : Db). d.trades) e₁ ∙ e)
        (λ _. e)

  publish-trades :
      (before : List TradeContract) (payload : Payload) (id : ℕ) (to : Option ℕ) (s : Session)
      → I s.base
      → s.db.trades ≡ before
      → Ensures I (λ _ d. d.trades ≡ before) (publish payload id to env s)
  publish-trades before payload id to s i e =
      Ensures-weaken (publish-Same env payload id to s i) λ _ d same. same.2 ∙ e

  -- The writes of `accept_offer` add one trade.
  pub lock_terms-Ensures :
      (now : ℕ) (request : ExchangeRequest) (offer : ExchangeOffer) (bs : List ExchangeOffer)
      (corridor : Corridor) (s : Session)
      → I s.base
      → Ensures I
          (λ _ d.
            d.trades ≡ s.db.trades ++ trade_for (env.uuid s.draws) now request offer corridor ∷ [])
          (lock_terms now request offer bs corridor env s)
  unfolding lock_terms Trades.add
  lock_terms-Ensures now request offer bs corridor s i = uuid4-Ensures _ s (
      Ensures-bind (Trades.add _) _ _
        (write_if-Ensures _ _ _ _ _ i λ _.
          pure-Ensures env
            {Q = λ _ d.
              d.trades
              ≡ s.db.trades ++ trade_for (env.uuid s.draws) now request offer corridor ∷ []}
            _ _ i refl)
        λ t s₁ i₁ e₁.
          Ensures-then (Requests.update _) _ s₁ (update_request_row env _ s₁ i₁) λ s₂ i₂ e₂.
            Ensures-then (for_each bs _) _ s₂
              (for_each-Ensures
                (λ d.
                  d.trades
                  ≡ s.db.trades ++ trade_for (env.uuid s.draws) now request offer corridor ∷ [])
                _ (λ x s' i e. settle-trades request.id offer.id t.id now x _ s' i e) bs s₂ i₂
                (ap (λ (d : Db). d.trades) e₂ ∙ e₁))
              λ s₃ i₃ e₃.
                Ensures-then (for_each _ _) _ s₃
                  (for_each-Ensures
                    (λ d.
                      d.trades
                      ≡ s.db.trades ++ trade_for (env.uuid s.draws) now request offer corridor ∷ [])
                    _ (λ x s' i e. publish-trades _ _ _ _ s' i e) _ s₃ i₃ e₃)
                  λ s₄ i₄ e₄. pure-Ensures env t s₄ i₄ e₄)
