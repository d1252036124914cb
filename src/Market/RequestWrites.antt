-- ===== src/Market/RequestWrites.antt =====
-- How the writes of requests act on the invariant.
use escrow_fx_marketplace.Common.{
  ℕ, ◌≡◌, refl, ◌∙◌, ap, Bool, true, false, ◌&&◌, ◌||◌, some, List, [], ◌∷◌, map, All, All-weaken,
  All-apply, arith, ◌==◌, if◌then◌else◌, ==→eq, Bool-cases, inl, inr, ◌⊎◌, All-trivial,
}
use escrow_fx_marketplace.Domain.Enums.{request_is_pending}
use escrow_fx_marketplace.Domain.Lifecycle.{offer_is_active}
use escrow_fx_marketplace.Domain.Entities.{ExchangeRequest}
use escrow_fx_marketplace.Store.Db.{Db}
use escrow_fx_marketplace.Store.Requests
use escrow_fx_marketplace.Market.Rows.{
  any-map-find, map-IsKeyed, append-IsKeyed, any-map, any-map-true, any-append_left, any-All,
  find_unique,
}
use escrow_fx_marketplace.Market.Invariant.{
  request_key, request_is_locked, has_pending, has_locked, IsConsistentBut, IsConsistent,
  NoActiveOffer, nothing,
}

abbrev pub saved : ExchangeRequest → ExchangeRequest → ExchangeRequest
saved request r = if r.id == request.id then Requests.assign request r else r

saved-id : (request r : ExchangeRequest) → (saved request r).id ≡ r.id
saved-id request r = ground arith

-- The row that is written back, if it is the only one with its key, was not locked.
any-saved_locked :
    (request : ExchangeRequest) (id : ℕ) (rows : List ExchangeRequest)
    → All (λ r. r.id ≡ request.id → request_is_locked r.status ≡ false) rows
    → has_locked rows id ≡ true
    → has_locked (map (saved request) rows) id ≡ true
any-saved_locked request id [] u e = e
any-saved_locked request id (r ∷ rows) u e =
    ground (arith, any-saved_locked request id rows u.1, u.0)

pub saved_pending_other :
    (request : ExchangeRequest) (id : ℕ) (rows : List ExchangeRequest)
    → (id == request.id) ≡ false
    → has_pending (map (saved request) rows) id ≡ has_pending rows id
saved_pending_other request id rows other =
    any-map (λ r. r.id == id && request_is_pending r.status) (saved request)
      (λ r. ground (arith, other)) rows

pub saved_pending_self :
    (request : ExchangeRequest) (id : ℕ) (rows : List ExchangeRequest)
    → request_is_pending request.status ≡ true
    → has_pending rows id ≡ true
    → has_pending (map (saved request) rows) id ≡ true
saved_pending_self request id rows pending =
    any-map-true (λ r. r.id == id && request_is_pending r.status) (saved request)
      (λ r e. ground (arith, pending, e)) rows

module _ (exempt exempt_trades : ℕ → Bool) (d : Db) (h : IsConsistentBut exempt exempt_trades d)
    (request row : ExchangeRequest) (found : Requests.by_id request.id d ≡ some row)
    (unlocked : request_is_locked row.status ≡ false) where
  saved_locked :
      (id : ℕ)
      → has_locked d.requests id ≡ true
      → has_locked (Requests.save request d).requests id ≡ true
  saved_locked id = any-saved_locked request id d.requests (
      All-weaken _ _
        (λ r u e. ap (λ (r : ExchangeRequest). request_is_locked r.status) (u e) ∙ unlocked)
        d.requests (find_unique request_key request.id d.requests h.requests_keyed found))

  -- A request that is written back keeps the invariant but for its own offers.
  pub save_request-IsConsistentBut :
      (exempt' : ℕ → Bool)
      → All
          (λ o.
            (offer_is_active o.status ≡ true
              → exempt o.request_id ≡ false
              → has_pending d.requests o.request_id ≡ true)
            → offer_is_active o.status ≡ true
            → exempt' o.request_id ≡ false
            → has_pending (map (saved request) d.requests) o.request_id ≡ true)
          d.offers
      → IsConsistentBut exempt' exempt_trades (Requests.save request d)
  save_request-IsConsistentBut exempt' keep = record {
    requests_keyed =
        map-IsKeyed request_key (saved request) (saved-id request) d.requests h.requests_keyed;
    offers_keyed = h.offers_keyed;
    pending_behind = All-apply _ _ d.offers keep h.pending_behind;
    trades_backed =
        All-weaken _ _ (λ t b counted. (saved_locked t.request_id (b counted).0, (b counted).1))
          d.trades h.trades_backed;
  }

-- The insertion of a request with a free key.
pub insert_request-IsConsistent :
    (d : Db) (request : ExchangeRequest)
    → IsConsistent d
    → Requests.key_is_free request d ≡ true
    → IsConsistent (Requests.insert request d)
insert_request-IsConsistent d request h free = record {
  requests_keyed = append-IsKeyed request_key request d.requests h.requests_keyed (
      All-weaken _ _ (λ r e. ground (arith, e)) d.requests
        (any-All
          (λ r.
            r.id == request.id
            || Requests.relists request.relisted_from_request_id r.relisted_from_request_id)
          d.requests (ground (arith, free))));
  offers_keyed = h.offers_keyed;
  pending_behind =
      All-weaken _ _
        (λ o p active counted. any-append_left _ d.requests (request ∷ []) (p active counted))
        d.offers h.pending_behind;
  trades_backed =
      All-weaken _ _
        (λ t b counted. (any-append_left _ d.requests (request ∷ []) (b counted).0, (b counted).1))
        d.trades h.trades_backed;
}

-- A request whose offers are all inactive may be written back with any status.
pub close_request-IsConsistent :
    (exempt_trades : ℕ → Bool) (d : Db) (request row : ExchangeRequest)
    → IsConsistentBut nothing exempt_trades d
    → Requests.by_id request.id d ≡ some row
    → request_is_locked row.status ≡ false
    → NoActiveOffer request.id d
    → IsConsistentBut nothing exempt_trades (Requests.save request d)
close_request-IsConsistent exempt_trades d request row h found unlocked idle =
    save_request-IsConsistentBut nothing exempt_trades d h request row found unlocked nothing (
      All-weaken _ _
        (λ o idle p active counted. elim (Bool-cases (o.request_id == request.id)) [
          | inl own ↦ absurd (ground (arith, idle own, active))
          | inr other ↦ saved_pending_other request o.request_id d.requests other ∙ p active counted
        ])
        d.offers idle)

-- A request that becomes, or stays, OFFER_PENDING keeps the invariant.
pub pend_request-IsConsistent :
    (exempt_trades : ℕ → Bool) (d : Db) (request row : ExchangeRequest)
    → IsConsistentBut nothing exempt_trades d
    → Requests.by_id request.id d ≡ some row
    → request_is_locked row.status ≡ false
    → request_is_pending request.status ≡ true
    → IsConsistentBut nothing exempt_trades (Requests.save request d)
pend_request-IsConsistent exempt_trades d request row h found unlocked pending =
    save_request-IsConsistentBut nothing exempt_trades d h request row found unlocked nothing (
      All-weaken (λ _. Unit {0}) _
        (λ o _ p active counted.
          saved_pending_self request o.request_id d.requests pending (p active counted))
        d.offers (All-trivial d.offers))

abbrev pub only : ℕ → ℕ → Bool
only id k = k == id

-- Any other status exempts the offers of the request.
pub exempt_request-IsConsistentBut :
    (exempt_trades : ℕ → Bool) (d : Db) (request row : ExchangeRequest)
    → IsConsistentBut nothing exempt_trades d
    → Requests.by_id request.id d ≡ some row
    → request_is_locked row.status ≡ false
    → IsConsistentBut (only request.id) exempt_trades (Requests.save request d)
exempt_request-IsConsistentBut exempt_trades d request row h found unlocked =
    save_request-IsConsistentBut nothing exempt_trades d h request row found unlocked
      (only request.id)
      (All-weaken (λ _. Unit {0}) _
        (λ o _ p active other.
          saved_pending_other request o.request_id d.requests other ∙ p active refl)
        d.offers (All-trivial d.offers))

-- The exemption ends when the request is pending.
pub pend_exempt-IsConsistent :
    (d : Db) (request row : ExchangeRequest)
    → IsConsistentBut (only request.id) nothing d
    → Requests.by_id request.id d ≡ some row
    → request_is_locked row.status ≡ false
    → request_is_pending request.status ≡ true
    → IsConsistent (Requests.save request d)
pend_exempt-IsConsistent d request row h found unlocked pending =
    save_request-IsConsistentBut (only request.id) nothing d h request row found unlocked nothing (
      All-weaken (λ _. Unit {0}) _
        (λ o _ p active counted. elim (Bool-cases (o.request_id == request.id)) [
          | inl own ↦
              any-map-find (λ r. r.id == o.request_id && request_is_pending r.status)
                (λ r. r.id == request.id) (saved request)
                (λ r same. ground (arith, own, same, pending)) d.requests found
          | inr other ↦ saved_pending_other request o.request_id d.requests other ∙ p active other
        ])
        d.offers (All-trivial d.offers))

-- The exemption ends also when the request has no active offer, or was pending all the time.
pub end_exemption :
    (exempt_trades : ℕ → Bool) (id : ℕ) (d : Db)
    → IsConsistentBut (only id) exempt_trades d
    → NoActiveOffer id d ⊎ (has_pending d.requests id ≡ true)
    → IsConsistentBut nothing exempt_trades d
end_exemption exempt_trades id d h (inl idle) = record {
  requests_keyed = h.requests_keyed;
  offers_keyed = h.offers_keyed;
  pending_behind =
      All-apply _ _ d.offers
        (All-weaken _ _
          (λ o idle p active counted. elim (Bool-cases (o.request_id == id)) [
            | inl own ↦ absurd (ground (arith, idle own, active))
            | inr other ↦ p active other
          ])
          d.offers idle)
        h.pending_behind;
  trades_backed = h.trades_backed;
}
end_exemption exempt_trades id d h (inr pending) = record {
  requests_keyed = h.requests_keyed;
  offers_keyed = h.offers_keyed;
  pending_behind =
      All-weaken _ _
        (λ o p active counted. elim (Bool-cases (o.request_id == id)) [
          | inl own ↦ rw (==→eq o.request_id id own) pending
          | inr other ↦ p active other
        ])
        d.offers h.pending_behind;
  trades_backed = h.trades_backed;
}

-- An exemption may be granted at any time.
pub grant_exemption :
    (exempt exempt_trades : ℕ → Bool) (d : Db)
    → IsConsistent d
    → IsConsistentBut exempt exempt_trades d
grant_exemption exempt exempt_trades d h = record {
  requests_keyed = h.requests_keyed;
  offers_keyed = h.offers_keyed;
  pending_behind = All-weaken _ _ (λ o p active _. p active refl) d.offers h.pending_behind;
  trades_backed = All-weaken _ _ (λ t b _. b refl) d.trades h.trades_backed;
}
