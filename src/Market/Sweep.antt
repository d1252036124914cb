-- ===== src/Market/Sweep.antt =====
-- The four bulk writes of `expire_due_items`, as functions of the database.
use escrow_fx_marketplace.Common.{
  ℕ, ◌≡◌, refl, sym, subst, Bool, true, false, not, ◌&&◌, List, [], ◌∷◌, any, arith, ◌==◌, All,
  All-map, All-weaken, All-apply, if◌then◌else◌, ==→eq,
}
use escrow_fx_marketplace.Domain.Enums.{request_is_pending, request_is_expired}
use escrow_fx_marketplace.Domain.Lifecycle.{offer_is_active}
use escrow_fx_marketplace.Domain.Entities.{ExchangeRequest, ExchangeOffer, TradeContract}
use escrow_fx_marketplace.Store.Db.{Db}
use escrow_fx_marketplace.Store.Requests
use escrow_fx_marketplace.Store.Offers
use escrow_fx_marketplace.Store.Trades
use escrow_fx_marketplace.Store.Table.{update_where}
use escrow_fx_marketplace.Market.Rows.{map-IsKeyed, any-map-true}
use escrow_fx_marketplace.Market.Invariant.{
  request_key, offer_key, request_is_locked, has_pending, has_locked, has_accepted, IsConsistentBut,
  IsConsistent, nothing,
}

module _ (now : ℕ) where
  abbrev pub sweep_requests : Db → Db
  sweep_requests d = record d {
    requests = update_where (Requests.is_due now) (Requests.expire now) d.requests;
  }

  abbrev pub sweep_offers : Db → Db
  sweep_offers d = record d {
    offers = update_where (Offers.is_due d now) (Offers.expire now) d.offers;
  }

  abbrev pub sweep_pending : Db → Db
  sweep_pending d = record d {
    requests = update_where (Requests.is_abandoned d) (Requests.reopen now) d.requests;
  }

  abbrev pub sweep_trades : Db → Db
  sweep_trades d = record d {
    trades = update_where (Trades.is_due_unfunded now) (Trades.cancel now) d.trades;
  }

  -- The requests that have expired, whose offers are exempt until they expire too.
  abbrev has_expired : List ExchangeRequest → ℕ → Bool
  has_expired requests id = any (λ r. r.id == id && request_is_expired r.status) requests

  expire_row : ExchangeRequest → ExchangeRequest
  expire_row r = if Requests.is_due now r then Requests.expire now r else r

  expired-pending :
      (id : ℕ) (rows : List ExchangeRequest)
      → has_expired (update_where (Requests.is_due now) (Requests.expire now) rows) id ≡ false
      → has_pending rows id ≡ true
      → has_pending (update_where (Requests.is_due now) (Requests.expire now) rows) id ≡ true
  expired-pending id [] e p = p
  expired-pending id (r ∷ rows) e p = ground (arith, expired-pending id rows)

  expired-locked :
      (id : ℕ) (rows : List ExchangeRequest)
      → has_locked rows id ≡ true
      → has_locked (update_where (Requests.is_due now) (Requests.expire now) rows) id ≡ true
  expired-locked id [] p = p
  expired-locked id (r ∷ rows) p = ground (arith, expired-locked id rows)

  expired-accepted :
      (d : Db) (id request_id : ℕ) (rows : List ExchangeOffer)
      → has_accepted rows id request_id ≡ true
      → has_accepted (update_where (Offers.is_due d now) (Offers.expire now) rows) id request_id
        ≡ true
  expired-accepted d id request_id [] p = p
  expired-accepted d id request_id (o ∷ rows) p =
      ground (arith, expired-accepted d id request_id rows)

  pub sweep_requests-IsConsistentBut :
      (d : Db)
      → IsConsistent d
      → IsConsistentBut (has_expired (sweep_requests d).requests) nothing (sweep_requests d)
  sweep_requests-IsConsistentBut d h = record {
    requests_keyed = map-IsKeyed request_key _ (λ r. ground arith) d.requests h.requests_keyed;
    offers_keyed = h.offers_keyed;
    pending_behind =
        All-weaken _ _
          (λ o p active counted. expired-pending o.request_id d.requests counted (p active refl))
          d.offers h.pending_behind;
    trades_backed =
        All-weaken _ _
          (λ t b counted. (expired-locked t.request_id d.requests (b counted).0, (b counted).1))
          d.trades h.trades_backed;
  }

  pub sweep_offers-IsConsistent :
      (d : Db) → IsConsistentBut (has_expired d.requests) nothing d → IsConsistent (sweep_offers d)
  sweep_offers-IsConsistent d h = record {
    requests_keyed = h.requests_keyed;
    offers_keyed = map-IsKeyed offer_key _ (λ o. ground arith) d.offers h.offers_keyed;
    pending_behind = All-map _ _ _ (λ o p. step o p) d.offers h.pending_behind;
    trades_backed =
        All-weaken _ _
          (λ t b counted. (
            (b counted).0,
            expired-accepted d t.accepted_offer_id t.request_id d.offers (b counted).1,
          ))
          d.trades h.trades_backed;
  }
    where
      step :
          (o : ExchangeOffer)
          → (offer_is_active o.status ≡ true
              → has_expired d.requests o.request_id ≡ false
              → has_pending d.requests o.request_id ≡ true)
          → offer_is_active (if Offers.is_due d now o then Offers.expire now o else o).status ≡ true
          → nothing (if Offers.is_due d now o then Offers.expire now o else o).request_id ≡ false
          → has_pending d.requests
              (if Offers.is_due d now o then Offers.expire now o else o).request_id
            ≡ true
      step o p active _ = ground arith

  -- Every active offer is seen by a scan for an active offer on its request.
  active-seen :
      (rows : List ExchangeOffer)
      → All
          (λ o.
            offer_is_active o.status ≡ true
            → any (λ y. y.request_id == o.request_id && offer_is_active y.status) rows ≡ true)
          rows
  active-seen [] = tt
  active-seen (o ∷ rows) = (
    (λ act. ground (arith, act)),
    All-weaken _ _ (λ x p act. ground (arith, p act)) rows (active-seen rows),
  )

  reopened-pending :
      (d : Db) (id : ℕ) (rows : List ExchangeRequest)
      → Requests.has_active_offer d id ≡ true
      → has_pending rows id ≡ true
      → has_pending (update_where (Requests.is_abandoned d) (Requests.reopen now) rows) id ≡ true
  reopened-pending d id rows seen =
      any-map-true (λ r. r.id == id && request_is_pending r.status) _
        (λ r e.
          let seen_here : Requests.has_active_offer d r.id ≡ true =
            subst (λ k. Requests.has_active_offer d k ≡ true)
              (sym (==→eq r.id id (ground (arith, e)))) seen in
          kept r (Requests.has_active_offer d r.id) seen_here e)
        rows
    where
      kept :
          (r : ExchangeRequest) (b : Bool)
          → b ≡ true
          → (r.id == id && request_is_pending r.status) ≡ true
          → ((if request_is_pending r.status && not b then Requests.reopen now r else r).id == id
              && request_is_pending
                  (if request_is_pending r.status && not b
                    then Requests.reopen now r
                    else r).status)
            ≡ true
      kept r true _ e = ground arith
      kept r false s e = absurd (ground (arith, s))

  reopened-locked :
      (d : Db) (id : ℕ) (rows : List ExchangeRequest)
      → has_locked rows id ≡ true
      → has_locked (update_where (Requests.is_abandoned d) (Requests.reopen now) rows) id ≡ true
  reopened-locked d id rows =
      any-map-true (λ r. r.id == id && request_is_locked r.status) _
        (λ r e. kept r (Requests.has_active_offer d r.id) e) rows
    where
      kept :
          (r : ExchangeRequest) (b : Bool)
          → (r.id == id && request_is_locked r.status) ≡ true
          → ((if request_is_pending r.status && not b then Requests.reopen now r else r).id == id
              && request_is_locked
                  (if request_is_pending r.status && not b
                    then Requests.reopen now r
                    else r).status)
            ≡ true
      kept r b e = ground arith

  reopened-id :
      (r : ExchangeRequest) (b : Bool) → (if b then Requests.reopen now r else r).id ≡ r.id
  reopened-id r true = refl
  reopened-id r false = refl

  pub sweep_pending-IsConsistent : (d : Db) → IsConsistent d → IsConsistent (sweep_pending d)
  sweep_pending-IsConsistent d h = record {
    requests_keyed =
        map-IsKeyed request_key _ (λ r. reopened-id r (Requests.is_abandoned d r)) d.requests
          h.requests_keyed;
    offers_keyed = h.offers_keyed;
    pending_behind =
        All-apply _ _ d.offers
          (All-weaken _ _
            (λ o seen p active counted.
              reopened-pending d o.request_id d.requests (seen active) (p active counted))
            d.offers (active-seen d.offers))
          h.pending_behind;
    trades_backed =
        All-weaken _ _
          (λ t b counted. (reopened-locked d t.request_id d.requests (b counted).0, (b counted).1))
          d.trades h.trades_backed;
  }

  pub sweep_trades-IsConsistent : (d : Db) → IsConsistent d → IsConsistent (sweep_trades d)
  sweep_trades-IsConsistent d h = record {
    requests_keyed = h.requests_keyed;
    offers_keyed = h.offers_keyed;
    pending_behind = h.pending_behind;
    trades_backed =
        All-map _ _ _ (λ t b. cancelled t (Trades.is_due_unfunded now t) b) d.trades
          h.trades_backed;
  }
    where
      cancelled :
          (t : TradeContract) (b : Bool)
          → (nothing t.request_id ≡ false
              → (has_locked d.requests t.request_id ≡ true)
                × (has_accepted d.offers t.accepted_offer_id t.request_id ≡ true))
          → nothing (if b then Trades.cancel now t else t).request_id ≡ false
          → (has_locked d.requests (if b then Trades.cancel now t else t).request_id ≡ true)
            × (has_accepted d.offers
                  (if b then Trades.cancel now t else t).accepted_offer_id
                  (if b then Trades.cancel now t else t).request_id
                ≡ true)
      cancelled t true b = b
      cancelled t false b = b

  -- The four writes, in the order of the service.
  abbrev pub sweep : Db → Db
  sweep d = sweep_trades (sweep_pending (sweep_offers (sweep_requests d)))

  pub sweep-IsConsistent : (d : Db) → IsConsistent d → IsConsistent (sweep d)
  sweep-IsConsistent d h = sweep_trades-IsConsistent _ (
      sweep_pending-IsConsistent _
        (sweep_offers-IsConsistent _ (sweep_requests-IsConsistentBut d h)))
