-- ===== src/Market/OfferWrites.antt =====
-- How the writes of offers act on the invariant.
use escrow_fx_marketplace.Common.{
  ℕ, ◌≡◌, Bool, true, false, List, [], ◌∷◌, map, All, All-weaken, All-append, arith, ◌==◌,
  if◌then◌else◌,
}
use escrow_fx_marketplace.Domain.Lifecycle.{offer_is_active}
use escrow_fx_marketplace.Domain.Entities.{ExchangeOffer}
use escrow_fx_marketplace.Store.Db.{Db}
use escrow_fx_marketplace.Store.Offers
use escrow_fx_marketplace.Market.Rows.{map-IsKeyed, append-IsKeyed, any-append_left, any-All}
use escrow_fx_marketplace.Market.Invariant.{
  offer_key, offer_is_accepted, has_pending, has_accepted, IsConsistentBut, nothing,
}

abbrev pub saved : ExchangeOffer → ExchangeOffer → ExchangeOffer
saved offer o = if o.id == offer.id then Offers.assign offer o else o

saved-id : (offer o : ExchangeOffer) → (saved offer o).id ≡ o.id
saved-id offer o = ground arith

pub any-saved_accepted :
    (offer : ExchangeOffer) (offer_id request_id : ℕ) (rows : List ExchangeOffer)
    → All
        (λ o.
          o.id ≡ offer.id
          → offer_is_accepted o.status ≡ true
          → offer_is_accepted offer.status ≡ true)
        rows
    → has_accepted rows offer_id request_id ≡ true
    → has_accepted (map (saved offer) rows) offer_id request_id ≡ true
any-saved_accepted offer offer_id request_id [] u e = e
any-saved_accepted offer offer_id request_id (o ∷ rows) u e =
    ground (arith, any-saved_accepted offer offer_id request_id rows u.1, u.0)

module _ (exempt exempt_trades : ℕ → Bool) (d : Db) (h : IsConsistentBut exempt exempt_trades d)
    (offer : ExchangeOffer)
    (once : All
      (λ o.
        o.id ≡ offer.id → offer_is_accepted o.status ≡ true → offer_is_accepted offer.status ≡ true)
      d.offers)
    (kept : All
      (λ o. o.id ≡ offer.id → offer_is_active offer.status ≡ true → offer_is_active o.status ≡ true)
      d.offers) where
  -- An offer that is written back may become inactive, but not active.
  pub save_offer-IsConsistentBut : IsConsistentBut exempt exempt_trades (Offers.save offer d)
  save_offer-IsConsistentBut = record {
    requests_keyed = h.requests_keyed;
    offers_keyed = map-IsKeyed offer_key (saved offer) (saved-id offer) d.offers h.offers_keyed;
    pending_behind = pending d.offers kept h.pending_behind;
    trades_backed =
        All-weaken _ _
          (λ t b counted. (
            (b counted).0,
            any-saved_accepted offer t.accepted_offer_id t.request_id d.offers once (b counted).1,
          ))
          d.trades h.trades_backed;
  }
    where
      step :
          (o : ExchangeOffer)
          → (o.id ≡ offer.id
              → offer_is_active offer.status ≡ true
              → offer_is_active o.status ≡ true)
          → (offer_is_active o.status ≡ true
              → exempt o.request_id ≡ false
              → has_pending d.requests o.request_id ≡ true)
          → offer_is_active (saved offer o).status ≡ true
          → exempt (saved offer o).request_id ≡ false
          → has_pending d.requests (saved offer o).request_id ≡ true
      step o k p active counted = ground arith

      pending :
          (rows : List ExchangeOffer)
          → All
              (λ o.
                o.id ≡ offer.id
                → offer_is_active offer.status ≡ true
                → offer_is_active o.status ≡ true)
              rows
          → All
              (λ o.
                offer_is_active o.status ≡ true
                → exempt o.request_id ≡ false
                → has_pending d.requests o.request_id ≡ true)
              rows
          → All
              (λ o.
                offer_is_active o.status ≡ true
                → exempt o.request_id ≡ false
                → has_pending d.requests o.request_id ≡ true)
              (map (saved offer) rows)
      pending [] k p = tt
      pending (o ∷ rows) k p = (step o k.0 p.0, pending rows k.1 p.1)

-- The insertion of an offer with a free key, whose request is exempt.
pub insert_offer-IsConsistentBut :
    (exempt : ℕ → Bool) (d : Db) (offer : ExchangeOffer)
    → IsConsistentBut exempt nothing d
    → Offers.key_is_free offer d ≡ true
    → exempt offer.request_id ≡ true
    → IsConsistentBut exempt nothing (Offers.insert offer d)
insert_offer-IsConsistentBut exempt d offer h free e = record {
  requests_keyed = h.requests_keyed;
  offers_keyed =
      append-IsKeyed offer_key offer d.offers h.offers_keyed
        (any-All (λ o. o.id == offer.id) d.offers (ground (arith, free)));
  pending_behind =
      All-append _ d.offers (offer ∷ []) h.pending_behind
        ((λ active counted. absurd (ground (arith, e, counted))), tt);
  trades_backed =
      All-weaken _ _
        (λ t b counted. ((b counted).0, any-append_left _ d.offers (offer ∷ []) (b counted).1))
        d.trades h.trades_backed;
}
