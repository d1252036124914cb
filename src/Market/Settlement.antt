-- ===== src/Market/Settlement.antt =====
-- The settlement of the offers of a request whose terms are locked.
use escrow_fx_marketplace.Common.{
  ℕ, ◌≡◌, refl, sym, ◌∙◌, ap, true, false, some, List, [], ◌∷◌, arith, ◌==◌, All, All-weaken, inl,
  leb, map, ◌&&◌, subst, ◌++◌, All-append, find, ◌||◌,
}
use escrow_fx_marketplace.Domain.Enums.{ExchangeRequestStatus, ExchangeOfferStatus}
use escrow_fx_marketplace.Domain.Lifecycle.{offer_is_active}
use escrow_fx_marketplace.Domain.Entities.{ExchangeRequest, ExchangeOffer, TradeContract}
use escrow_fx_marketplace.Store.Db.{Db}
use escrow_fx_marketplace.Store.Action.{Env, Session, for_each}
use escrow_fx_marketplace.Store.Ensures.{
  Ensures, IsSerial, pure-Ensures, Ensures-weaken, write_if-Ensures,
}
use escrow_fx_marketplace.Store.Requests
use escrow_fx_marketplace.Store.Offers
use escrow_fx_marketplace.Market.Rows.{any-All, find-All, any-map-find}
use escrow_fx_marketplace.Market.Invariant.{
  request_is_locked, IsConsistentBut, IsConsistent, nothing, has_locked, has_accepted,
}
use escrow_fx_marketplace.Market.Frame.{SameMarket, publish-Same}
use escrow_fx_marketplace.Market.Reads.{IsRequestRow, IsOfferRow}
use escrow_fx_marketplace.Market.Settle.{loop-Ensures}
use escrow_fx_marketplace.Market.SettleRows.{IsSettled}
use escrow_fx_marketplace.Market.LockedOffers.{ids}
use escrow_fx_marketplace.Market.Settled.{
  settled-NoActiveOffer, settled-has_accepted, insert_trade-IsConsistentBut,
  back_trade-IsConsistent,
}
use escrow_fx_marketplace.Market.RequestWrites.{
  exempt_request-IsConsistentBut, end_exemption, only, saved,
}
use escrow_fx_marketplace.Store.Table.{sort_by}
use escrow_fx_marketplace.Store.Trades
use escrow_fx_marketplace.Service.Trades.{settle_offer, announce_settled, settled_status}

settled_status-ended :
    (accepted_id id : ℕ) → offer_is_active (settled_status accepted_id id) ≡ false
settled_status-ended accepted_id id = ground arith

settled_status-accepted : (id : ℕ) → settled_status id id ≡ ExchangeOfferStatus.accepted
settled_status-accepted id = ground arith

-- A request that was read is, once saved, the row with its identifier.
saved-has_locked :
    (request row : ExchangeRequest) (rows : List ExchangeRequest)
    → find (λ r. r.id == request.id) rows ≡ some row
    → request_is_locked request.status ≡ true
    → has_locked (map (saved request) rows) request.id ≡ true
saved-has_locked request row rows found locked =
    any-map-find (λ r. r.id == request.id && request_is_locked r.status) (λ r. r.id == request.id)
      (saved request) (λ r same. ground (arith, same, locked)) rows found

-- Of the trades, only the inserted one is on the request.
inserted-has_accepted :
    (trade : TradeContract) (offers : List ExchangeOffer) (d : Db)
    → Trades.key_is_free trade d ≡ true
    → has_accepted offers trade.accepted_offer_id trade.request_id ≡ true
    → All
        (λ t.
          (t.request_id == trade.request_id) ≡ true
          → has_accepted offers t.accepted_offer_id trade.request_id ≡ true)
        (d.trades ++ trade ∷ [])
inserted-has_accepted trade offers d free accepted =
    All-append _ d.trades (trade ∷ [])
      (All-weaken _ _ (λ t e own. absurd (ground (arith, e, own))) d.trades
        (any-All
          (λ t.
            t.id == trade.id
            || t.request_id == trade.request_id
            || t.accepted_offer_id == trade.accepted_offer_id)
          d.trades (ground (arith, free))))
      ((λ _. accepted), tt)

module _ (env : Env) (serial : IsSerial env) where
  announce_settled-Same :
      (request_id accepted_id trade_id : ℕ) (x : ExchangeOffer) (s : Session)
      → IsConsistent s.base
      → Ensures IsConsistent
          (λ _ d. SameMarket s.db d)
          (announce_settled request_id accepted_id trade_id x env s)
  unfolding announce_settled
  announce_settled-Same request_id accepted_id trade_id x s i = publish-Same env _ _ _ s i

  pub add_trade :
      (t : TradeContract) (s : Session)
      → IsConsistent s.base
      → IsConsistent s.db
      → Ensures IsConsistent
          (λ r d.
            (r.request_id ≡ t.request_id)
            × (r.accepted_offer_id ≡ t.accepted_offer_id)
            × (d ≡ Trades.insert r s.db)
            × (Trades.key_is_free r s.db ≡ true))
          (Trades.add t env s)
  unfolding Trades.add
  add_trade t s i h =
      write_if-Ensures _ _ _ _ s i λ free. pure-Ensures env _ _ i (refl, refl, refl, free)

  -- The trade is inserted, and its request written.
  locked-Underway :
      (now : ℕ) (request : ExchangeRequest) (t : TradeContract) (d : Db)
      → IsConsistent d
      → IsRequestRow request d
      → request_is_locked request.status ≡ false
      → t.request_id ≡ request.id
      → IsConsistentBut (only request.id) (only request.id) (
          Requests.save
            (record request { status = ExchangeRequestStatus.terms_locked; updated_at = now })
            (Trades.insert t d))
  locked-Underway now request t d h row unlocked own =
      exempt_request-IsConsistentBut (only request.id) (Trades.insert t d)
        (record request { status = ExchangeRequestStatus.terms_locked; updated_at = now }) request
        (subst (λ k. IsConsistentBut nothing (only k) (Trades.insert t d)) own
          (insert_trade-IsConsistentBut d t h))
        row unlocked

  pub settle-Ensures :
      (now : ℕ) (request : ExchangeRequest) (offer : ExchangeOffer) (bs : List ExchangeOffer)
      (t : TradeContract) (d₀ : Db) (s : Session)
      → IsConsistent s.base
      → IsConsistent d₀
      → IsRequestRow request d₀
      → request_is_locked request.status ≡ false
      → t.request_id ≡ request.id
      → t.accepted_offer_id ≡ offer.id
      → Trades.key_is_free t d₀ ≡ true
      → All (λ b. IsOfferRow b d₀ × (b.request_id ≡ request.id)) bs
      → ids bs ≡ ids (sort_by (λ a b. leb a.id b.id) (Offers.of_request request.id d₀))
      → find (λ o. o.id == offer.id) bs ≡ some offer
      → offer_is_active offer.status ≡ true
      → s.db
        ≡ Requests.save
            (record request { status = ExchangeRequestStatus.terms_locked; updated_at = now })
            (Trades.insert t d₀)
      → Ensures IsConsistent
          (λ _ d. IsConsistent d)
          (for_each bs (settle_offer request.id offer.id t.id now) env s)
  unfolding settle_offer
  settle-Ensures now request offer bs t d₀ s i h row unlocked own accepts free rows listed found
        active e =
      let offers_kept : s.db.offers ≡ d₀.offers = ap (λ (d : Db). d.offers) e in
      let offer_row : IsOfferRow offer d₀ × (offer.request_id ≡ request.id) =
        find-All (λ o. o.id == offer.id) (λ b. IsOfferRow b d₀ × (b.request_id ≡ request.id)) bs
          rows found in
      Ensures-weaken
        (loop-Ensures (settled_status offer.id) (settled_status-ended offer.id) env _
          (λ x s i. announce_settled-Same request.id offer.id t.id x s i) request.id now
          (only request.id) s.db bs s i
          (rw e (locked-Underway now request t d₀ h row unlocked own), refl, refl, refl)
          (All-weaken (λ b. IsOfferRow b d₀ × (b.request_id ≡ request.id)) _
            (λ b p. rw offers_kept p.0) bs rows))
        λ _ d (u, settled).
          back_trade-IsConsistent request.id d
            (end_exemption (only request.id) request.id d u.0 (
              inl (
                settled-NoActiveOffer (settled_status offer.id) (settled_status-ended offer.id)
                  request.id bs s.db d (rw offers_kept listed) u.1 settled)))
            (rw (u.2 ∙ ap (λ (d : Db). d.requests) e) (
              saved-has_locked
                (record request { status = ExchangeRequestStatus.terms_locked; updated_at = now })
                request d₀.requests row refl))
            (rw (u.3 ∙ ap (λ (d : Db). d.trades) e) (
              subst
                (λ k.
                  All
                    (λ t'.
                      (t'.request_id == k) ≡ true
                      → has_accepted d.offers t'.accepted_offer_id k ≡ true)
                    (d₀.trades ++ t ∷ []))
                own
                (inserted-has_accepted t d.offers d₀ free (
                  subst (λ k. has_accepted d.offers k t.request_id ≡ true) (sym accepts)
                    (settled-has_accepted (settled_status offer.id) (settled_status-ended offer.id)
                      t.request_id offer s.db d (settled_status-accepted offer.id) active
                      (rw offers_kept offer_row.0) (offer_row.1 ∙ sym own) u.1
                      (find-All (λ o. o.id == offer.id)
                        (λ b.
                          IsSettled (settled_status offer.id) (settled_status-ended offer.id) b d)
                        bs settled found))))))
