-- ===== src/Market/Invariant.antt =====
-- The invariant of requests, offers and trades, and how each write of a row acts on it.
use escrow_fx_marketplace.Common.{ℕ, ◌≡◌, Bool, true, false, ◌&&◌, List, any, All, ◌==◌}
use escrow_fx_marketplace.Domain.Enums.{
  ExchangeRequestStatus, ExchangeOfferStatus, request_is_pending,
}
use escrow_fx_marketplace.Domain.Lifecycle.{offer_is_active}
use escrow_fx_marketplace.Domain.Entities.{ExchangeRequest, ExchangeOffer, TradeContract}
use escrow_fx_marketplace.Store.Db.{Db}
use escrow_fx_marketplace.Market.Rows.{IsKeyed}

abbrev pub request_key : ExchangeRequest → ℕ
request_key r = r.id

abbrev pub offer_key : ExchangeOffer → ℕ
offer_key o = o.id

abbrev pub request_is_locked : ExchangeRequestStatus → Bool
request_is_locked ExchangeRequestStatus.terms_locked = true
request_is_locked _ = false

abbrev pub offer_is_accepted : ExchangeOfferStatus → Bool
offer_is_accepted ExchangeOfferStatus.accepted = true
offer_is_accepted _ = false

abbrev pub has_pending : List ExchangeRequest → ℕ → Bool
has_pending requests id = any (λ r. r.id == id && request_is_pending r.status) requests

abbrev pub has_locked : List ExchangeRequest → ℕ → Bool
has_locked requests id = any (λ r. r.id == id && request_is_locked r.status) requests

-- The offer with the identifier is accepted, and was made on the request.
abbrev pub has_accepted : List ExchangeOffer → (offer_id request_id : ℕ) → Bool
has_accepted offers offer_id request_id =
    any (λ o. o.id == offer_id && offer_is_accepted o.status && o.request_id == request_id) offers

abbrev pub TradeIsBacked : List ExchangeRequest → List ExchangeOffer → TradeContract → Type 0
TradeIsBacked requests offers t =
    (has_locked requests t.request_id ≡ true)
    × (has_accepted offers t.accepted_offer_id t.request_id ≡ true)

-- Identifiers are unique; an ACTIVE offer stands on a request that is OFFER_PENDING; a trade
-- stands on a request that is TERMS_LOCKED and on an ACCEPTED offer of that request. In the middle
-- of a transaction the offers, or the trades, of some requests may be exempt.
pub record IsConsistentBut (exempt exempt_trades : ℕ → Bool) (d : Db) : Type 0 where
  pub requests_keyed : IsKeyed request_key d.requests
  pub offers_keyed : IsKeyed offer_key d.offers
  pub pending_behind :
      All
        (λ o.
          offer_is_active o.status ≡ true
          → exempt o.request_id ≡ false
          → has_pending d.requests o.request_id ≡ true)
        d.offers
  pub trades_backed :
      All (λ t. exempt_trades t.request_id ≡ false → TradeIsBacked d.requests d.offers t) d.trades

abbrev pub nothing : ℕ → Bool
nothing _ = false

abbrev pub IsConsistent : Db → Type 0
IsConsistent d = IsConsistentBut nothing nothing d

-- No offer of the request is active.
abbrev pub NoActiveOffer : ℕ → Db → Type 0
NoActiveOffer request_id d =
    All (λ o. (o.request_id == request_id) ≡ true → offer_is_active o.status ≡ false) d.offers
