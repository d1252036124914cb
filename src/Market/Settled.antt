-- ===== src/Market/Settled.antt =====
-- What the settled offers of a request mean for the marketplace.
use escrow_fx_marketplace.Common.{
  ℕ, ◌≡◌, refl, sym, ◌∙◌, Bool, true, false, some, List, [], ◌∷◌, arith, ◌==◌, All, All-weaken,
  Bool-cases, inl, inr, leb, ◌&&◌, ◌||◌, subst, All-append, All-apply, ==→eq, find,
}
use escrow_fx_marketplace.Domain.Enums.{ExchangeOfferStatus}
use escrow_fx_marketplace.Domain.Lifecycle.{offer_is_active}
use escrow_fx_marketplace.Domain.Entities.{ExchangeOffer, TradeContract}
use escrow_fx_marketplace.Store.Db.{Db}
use escrow_fx_marketplace.Store.Offers
use escrow_fx_marketplace.Store.Table.{sort_by-All, select-All, sort_by, All-diagonal}
use escrow_fx_marketplace.Market.Invariant.{
  IsConsistentBut, IsConsistent, NoActiveOffer, nothing, has_accepted, has_locked,
}
use escrow_fx_marketplace.Market.Reads.{IsOfferRow}
use escrow_fx_marketplace.Store.Trades
use escrow_fx_marketplace.Market.RequestWrites.{only}
use escrow_fx_marketplace.Market.SettleRows.{IsSettled, offer_keys}
use escrow_fx_marketplace.Market.LockedOffers.{ids, ids-All}

-- What holds by identifier and request of every row holds after writes that keep these.
keys-All :
    (Q : ℕ → ℕ → Type 0) (rows rows' : List ExchangeOffer)
    → offer_keys rows' ≡ offer_keys rows
    → All (λ o. Q o.id o.request_id) rows
    → All (λ o. Q o.id o.request_id) rows'
keys-All Q rows [] e h = tt
keys-All Q [] (o' ∷ rows') e h = absurd (cc)
keys-All Q (o ∷ rows) (o' ∷ rows') e h =
    let same_id : o.id ≡ o'.id = (ground arith) in
    let same_request : o.request_id ≡ o'.request_id = (ground arith) in
    (
      subst (λ k. Q k o'.request_id) same_id (subst (Q o.id) same_request h.0),
      keys-All Q rows rows' (ground arith) h.1,
    )

All-premise :
    (C : Type 0) (P : ExchangeOffer → Type 0) (rows : List ExchangeOffer)
    → (C → All P rows)
    → All (λ o. C → P o) rows
All-premise C P [] h = tt
All-premise C P (o ∷ rows) h = ((λ c. (h c).0), All-premise C P rows (λ c. (h c).1))

-- When every listed offer of the request is settled, the request has no active offer.
pub settled-NoActiveOffer :
    (status_of : ℕ → ExchangeOfferStatus)
    (ended : (id : ℕ) → offer_is_active (status_of id) ≡ false) (request_id : ℕ)
    (bs : List ExchangeOffer) (before d : Db)
    → ids bs ≡ ids (sort_by (λ a b. leb a.id b.id) (Offers.of_request request_id before))
    → offer_keys d.offers ≡ offer_keys before.offers
    → All (λ b. IsSettled status_of ended b d) bs
    → NoActiveOffer request_id d
settled-NoActiveOffer status_of ended request_id bs before d listed kept settled =
    All-weaken _ _ (λ o p own. p own refl) d.offers
      (All-diagonal
        (λ x y.
          (x.request_id == request_id) ≡ true → y.id ≡ x.id → offer_is_active y.status ≡ false)
        d.offers
        (All-weaken _ _
          (λ x h. All-premise _ (λ y. y.id ≡ x.id → offer_is_active y.status ≡ false) d.offers h)
          d.offers
          (keys-All
            (λ id request.
              (request == request_id) ≡ true
              → All (λ y. y.id ≡ id → offer_is_active y.status ≡ false) d.offers)
            before.offers d.offers kept
            (select-All _ (λ o. o.request_id == request_id) before.offers
              (sort_by-All _ (λ a b. leb b.created_at a.created_at) _
                (sort_by-All _ (λ a b. leb a.id b.id) _
                  (ids-All (λ id. All (λ y. y.id ≡ id → offer_is_active y.status ≡ false) d.offers)
                    bs (sort_by (λ a b. leb a.id b.id) (Offers.of_request request_id before)) listed
                    (All-weaken _ _ (λ b h. All-weaken _ _ (λ o p e. (p e).0) d.offers h) bs
                      settled))))))))

abbrev has_key : List (ℕ × ℕ) → ℕ → ℕ → Bool
has_key [] id request_id = false
has_key ((i, r) ∷ rows) id request_id = i == id && r == request_id || has_key rows id request_id

row-has_key :
    (id request_id : ℕ) (rows : List ExchangeOffer) (o : ExchangeOffer)
    → find (λ o. o.id == id) rows ≡ some o
    → o.request_id ≡ request_id
    → has_key (offer_keys rows) id request_id ≡ true
row-has_key id request_id [] o e own = cc
row-has_key id request_id (x ∷ rows) o e own = elim (Bool-cases (x.id == id)) [
  | inl same ↦ let e' : some x ≡ some o = (rw same at e) in ground (arith, e', own)
  | inr other ↦ ground (arith, row-has_key id request_id rows o (rw other at e) own)
]

key-has_accepted :
    (id request_id : ℕ) (rows : List ExchangeOffer)
    → All (λ o. o.id ≡ id → o.status ≡ ExchangeOfferStatus.accepted) rows
    → has_key (offer_keys rows) id request_id ≡ true
    → has_accepted rows id request_id ≡ true
key-has_accepted id request_id [] h e = cc
key-has_accepted id request_id (o ∷ rows) h e = elim (Bool-cases (o.id == id)) [
  | inl same ↦ ground (arith, same, h.0, e, key-has_accepted id request_id rows h.1)
  | inr other ↦ ground (arith, other, key-has_accepted id request_id rows h.1)
]

-- The accepted offer, once settled, backs the trade.
pub settled-has_accepted :
    (status_of : ℕ → ExchangeOfferStatus)
    (ended : (id : ℕ) → offer_is_active (status_of id) ≡ false) (request_id : ℕ)
    (offer : ExchangeOffer) (before d : Db)
    → status_of offer.id ≡ ExchangeOfferStatus.accepted
    → offer_is_active offer.status ≡ true
    → IsOfferRow offer before
    → offer.request_id ≡ request_id
    → offer_keys d.offers ≡ offer_keys before.offers
    → IsSettled status_of ended offer d
    → has_accepted d.offers offer.id request_id ≡ true
settled-has_accepted status_of ended request_id offer before d accepts active row own kept settled =
    key-has_accepted offer.id request_id d.offers
      (All-weaken _ _ (λ o p e. (p e).1 active ∙ accepts) d.offers settled)
      (rw kept (row-has_key offer.id request_id before.offers offer row own))

-- A trade may be inserted while its request is exempt.
pub insert_trade-IsConsistentBut :
    (d : Db) (trade : TradeContract)
    → IsConsistent d
    → IsConsistentBut nothing (only trade.request_id) (Trades.insert trade d)
insert_trade-IsConsistentBut d trade h = record {
  requests_keyed = h.requests_keyed;
  offers_keyed = h.offers_keyed;
  pending_behind = h.pending_behind;
  trades_backed =
      All-append _ d.trades (trade ∷ []) (All-weaken _ _ (λ t b _. b refl) d.trades h.trades_backed)
        ((λ e. absurd (ground (arith, e))), tt);
}

-- The exemption ends when the request is locked, and the trades on it have accepted offers.
pub back_trade-IsConsistent :
    (id : ℕ) (d : Db)
    → IsConsistentBut nothing (only id) d
    → has_locked d.requests id ≡ true
    → All
        (λ t. (t.request_id == id) ≡ true → has_accepted d.offers t.accepted_offer_id id ≡ true)
        d.trades
    → IsConsistent d
back_trade-IsConsistent id d h locked accepted = record {
  requests_keyed = h.requests_keyed;
  offers_keyed = h.offers_keyed;
  pending_behind = h.pending_behind;
  trades_backed =
      All-apply _ _ d.trades
        (All-weaken _ _
          (λ t acc b _. elim (Bool-cases (t.request_id == id)) [
            | inl own ↦
                subst
                  (λ k.
                    (has_locked d.requests k ≡ true)
                    × (has_accepted d.offers t.accepted_offer_id k ≡ true))
                  (sym (==→eq t.request_id id own)) (locked, acc own)
            | inr other ↦ b other
          ])
          d.trades accepted)
        h.trades_backed;
}
