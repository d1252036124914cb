-- ===== src/Market/Swept.antt =====
-- After the four bulk writes nothing is due.
use escrow_fx_marketplace.Common.{
  ℕ, ◌≡◌, refl, Bool, false, not, ◌&&◌, ◌||◌, arith, any, leb, ◌==◌, All, All-map, All-trivial,
  if◌then◌else◌,
}
use escrow_fx_marketplace.Domain.Enums.{request_is_pending, request_is_expired}
use escrow_fx_marketplace.Domain.Lifecycle.{offer_is_active}
use escrow_fx_marketplace.Domain.Entities.{ExchangeRequest, ExchangeOffer}
use escrow_fx_marketplace.Store.Db.{Db}
use escrow_fx_marketplace.Store.Requests
use escrow_fx_marketplace.Store.Offers
use escrow_fx_marketplace.Store.Trades
use escrow_fx_marketplace.Market.Rows.{any-map}
use escrow_fx_marketplace.Market.Sweep.{sweep_requests, sweep_offers, sweep_pending, sweep}

-- Nothing is left to do at the time `now`.
abbrev pub NothingDue : ℕ → Db → Type 0
NothingDue now d =
    All (λ r. Requests.is_due now r ≡ false) d.requests
    × All (λ o. Offers.is_due d now o ≡ false) d.offers
    × All (λ r. Requests.is_abandoned d r ≡ false) d.requests
    × All (λ t. Trades.is_due_unfunded now t ≡ false) d.trades

module _ (now : ℕ) where
  swept_request :
      (r : ExchangeRequest)
      → Requests.is_due now (if Requests.is_due now r then Requests.expire now r else r) ≡ false
  swept_request r = ground arith

  -- A reopened request is as little due as before.
  reopened_request :
      (r : ExchangeRequest) (b : Bool)
      → Requests.is_due now r ≡ false
      → Requests.is_due now (if request_is_pending r.status && b then Requests.reopen now r else r)
        ≡ false
  reopened_request r b e = ground arith

  no_longer_abandoned :
      (r : ExchangeRequest) (b : Bool) (c : ℕ → Bool)
      → c r.id ≡ b
      → (request_is_pending
            (if request_is_pending r.status && not b then Requests.reopen now r else r).status
          && not (c (if request_is_pending r.status && not b then Requests.reopen now r else r).id))
        ≡ false
  no_longer_abandoned r b c e = ground arith

  -- Reopening does not change which requests have expired.
  reopened_expired :
      (id : ℕ) (r : ExchangeRequest) (b : Bool)
      → ((if request_is_pending r.status && b then Requests.reopen now r else r).id == id
          && request_is_expired
              (if request_is_pending r.status && b then Requests.reopen now r else r).status)
        ≡ (r.id == id && request_is_expired r.status)
  reopened_expired id r b = ground arith

  swept_offer :
      (o : ExchangeOffer) (expired : ℕ → Bool) (b : Bool)
      → expired o.request_id ≡ b
      → (offer_is_active
            (if offer_is_active o.status && (leb o.expires_at now || b)
              then Offers.expire now o
              else o).status
          && (leb
                (if offer_is_active o.status && (leb o.expires_at now || b)
                  then Offers.expire now o
                  else o).expires_at
                now
              || expired
                  (if offer_is_active o.status && (leb o.expires_at now || b)
                    then Offers.expire now o
                    else o).request_id))
        ≡ false
  swept_offer o expired b e = ground (arith, e)

  pub sweep-NothingDue : (d : Db) → NothingDue now (sweep now d)
  sweep-NothingDue d = (
    All-map (λ r. Requests.is_due now r ≡ false) _ _
        (λ r e.
          reopened_request r
            (not (Requests.has_active_offer (sweep_offers now (sweep_requests now d)) r.id)) e)
        (sweep_requests now d).requests
        (All-map (λ _. Unit {0}) _ _ (λ r _. swept_request r) d.requests (All-trivial d.requests)),
    All-map (λ _. Unit {0}) _ _
        (λ o _.
          swept_offer o
            (λ k.
              any (λ r. r.id == k && request_is_expired r.status)
                (sweep_pending now (sweep_offers now (sweep_requests now d))).requests)
            (Offers.request_has_expired (sweep_requests now d) o)
            (any-map (λ r. r.id == o.request_id && request_is_expired r.status) _
              (λ r.
                reopened_expired o.request_id r
                  (not (Requests.has_active_offer (sweep_offers now (sweep_requests now d)) r.id)))
              (sweep_requests now d).requests))
        d.offers (All-trivial d.offers),
    All-map (λ _. Unit {0}) _ _
        (λ r _.
          no_longer_abandoned r
            (Requests.has_active_offer (sweep_offers now (sweep_requests now d)) r.id)
            (λ k. Requests.has_active_offer (sweep_offers now (sweep_requests now d)) k) refl)
        (sweep_requests now d).requests (All-trivial (sweep_requests now d).requests),
    All-map (λ _. Unit {0}) _ _ (λ t _. ground arith) d.trades (All-trivial d.trades),
  )
