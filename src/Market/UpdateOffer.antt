-- ===== src/Market/UpdateOffer.antt =====
-- `update_offer` keeps the invariant.
use escrow_fx_marketplace.Common.{ℕ, ◌≡◌, refl, sym, ◌∙◌, ap, Bool, true, false, All-weaken}
use escrow_fx_marketplace.Domain.Lifecycle.{offer_is_active}
use escrow_fx_marketplace.Domain.Decimal.{Decimal, Number}
use escrow_fx_marketplace.Domain.Entities.{ExchangeOffer}
use escrow_fx_marketplace.Store.Db.{Db}
use escrow_fx_marketplace.Store.Action.{Env, Session, transact}
use escrow_fx_marketplace.Store.Ensures.{
  Ensures, IsSerial, Ensures-bind, Ensures-then, fetch-Ensures, fetch_last-Ensures,
  raise_if-Ensures, utc_now-Ensures, pure-Ensures, commit-Ensures, lift-Ensures, transact-Ensures,
}
use escrow_fx_marketplace.Store.Offers
use escrow_fx_marketplace.Store.Outbox.{publish}
use escrow_fx_marketplace.Service.Offers.{
  OfferContext, lock_existing_offer_context, update_offer, change_rate, keep_rate, settle_rate,
}
use escrow_fx_marketplace.Market.Rows.{find_unique}
use escrow_fx_marketplace.Market.Invariant.{offer_is_accepted, offer_key, IsConsistent, nothing}
use escrow_fx_marketplace.Market.OfferWrites.{save_offer-IsConsistentBut}
use escrow_fx_marketplace.Market.Frame.{SameMarket-consistent, publish-Same}
use escrow_fx_marketplace.Market.Reads.{IsOfferRow, lock_context}
use escrow_fx_marketplace.Market.Brackets.{update_offer_row}
use escrow_fx_marketplace.Store.Users.{user_of}

module _ (env : Env) (serial : IsSerial env) where
  visible_offer-Same :
      (offer_id viewer : ℕ) (s : Session)
      → IsConsistent s.base
      → Ensures IsConsistent (λ _ d. d ≡ s.db) (Offers.get_visible_details offer_id viewer env s)
  unfolding Offers.get_visible_details
  visible_offer-Same offer_id viewer s i =
      fetch-Ensures _ _ _ s i λ row _. fetch_last-Ensures env _ _ s i λ _ _. refl

  keep_rate-IsConsistent :
      (offer_id user : ℕ) (s : Session)
      → IsConsistent s.base
      → IsConsistent s.db
      → Ensures IsConsistent (λ _ d. IsConsistent d) (keep_rate offer_id user env s)
  unfolding keep_rate
  keep_rate-IsConsistent offer_id user s i h =
      Ensures-bind (Offers.get_visible_details offer_id user) _ s
        (visible_offer-Same offer_id user s i)
        λ details s₁ i₁ e₁. pure-Ensures env _ s₁ i₁ (rw e₁ h)

  change_rate-IsConsistent :
      (offer_id user : ℕ) (rate : Number) (now : ℕ) (c : OfferContext) (s : Session)
      → IsConsistent s.base
      → IsConsistent s.db
      → IsOfferRow c.offer s.db
      → Ensures IsConsistent (λ _ d. IsConsistent d) (change_rate offer_id user rate now c env s)
  unfolding change_rate
  change_rate-IsConsistent offer_id user rate now c s i h orow =
      Ensures-then (Offers.update _) _ s (update_offer_row env _ s i) λ s₁ i₁ e₁.
        Ensures-then (publish _ _ _) _ s₁ (publish-Same env _ _ _ s₁ i₁) λ s₂ i₂ same.
          let h₂ : IsConsistent s₂.db = SameMarket-consistent s₁.db s₂.db same (rw e₁ saved) in
          commit-Ensures _ s₂ (keep_rate_after offer_id user (record s₂ { base = s₂.db }) h₂)
    where
      saved :
          IsConsistent (Offers.save (record c.offer { offered_rate = rate; updated_at = now }) s.db)
      saved =
          save_offer-IsConsistentBut nothing nothing s.db h
            (record c.offer { offered_rate = rate; updated_at = now })
            (All-weaken (λ o. o.id ≡ c.offer.id → o ≡ c.offer) _
              (λ o u e acc.
                ap (λ (o : ExchangeOffer). offer_is_accepted o.status) (sym (u e)) ∙ acc)
              s.db.offers (find_unique offer_key c.offer.id s.db.offers h.offers_keyed orow))
            (All-weaken (λ o. o.id ≡ c.offer.id → o ≡ c.offer) _
              (λ o u e act. ap (λ (o : ExchangeOffer). offer_is_active o.status) (u e) ∙ act)
              s.db.offers (find_unique offer_key c.offer.id s.db.offers h.offers_keyed orow))

      keep_rate_after :
          (offer_id user : ℕ) (s : Session)
          → IsConsistent s.db
          → Ensures IsConsistent
              (λ _ d. IsConsistent d)
              (keep_rate offer_id user env (record s { base = s.db }))
      keep_rate_after offer_id user s h =
          keep_rate-IsConsistent offer_id user (record s { base = s.db }) h h

  settle_rate-IsConsistent :
      (same : Bool) (offer_id user : ℕ) (rate : Number) (now : ℕ) (c : OfferContext) (s : Session)
      → IsConsistent s.base
      → IsConsistent s.db
      → IsOfferRow c.offer s.db
      → Ensures IsConsistent
          (λ _ d. IsConsistent d)
          (settle_rate same offer_id user rate now c env s)
  unfolding settle_rate
  settle_rate-IsConsistent true offer_id user rate now c s i h orow =
      keep_rate-IsConsistent offer_id user s i h
  settle_rate-IsConsistent false offer_id user rate now c s i h orow =
      change_rate-IsConsistent offer_id user rate now c s i h orow

  -- When transactions run one after the other, changing an offer's rate, whatever the outcome, leaves
  -- a committed marketplace consistent that was so before.
  pub update_offer-IsConsistent :
      (offer_id user : ℕ) (rate : Decimal) (d : Db)
      → IsConsistent d
      → IsConsistent (transact (update_offer offer_id user rate) env d).1
  unfolding update_offer user_of
  update_offer-IsConsistent offer_id user rate d h =
      transact-Ensures (λ _ d. IsConsistent d) _ env d
        (utc_now-Ensures _ _ (
          lift-Ensures _ _ _ h λ value _.
            Ensures-bind (lock_existing_offer_context offer_id) _ _
              (lock_context env serial offer_id _ h)
              λ c s i (e, rrow, orow, _, _). raise_if-Ensures _ _ _ s i λ _.
                fetch-Ensures _ _ _ s i λ _ _. raise_if-Ensures _ _ _ s i λ _.
                  raise_if-Ensures _ _ _ s i λ _. raise_if-Ensures _ _ _ s i λ _.
                    raise_if-Ensures _ _ _ s i λ _. raise_if-Ensures _ _ _ s i λ _.
                      raise_if-Ensures _ _ _ s i λ _. raise_if-Ensures _ _ _ s i λ _.
                        settle_rate-IsConsistent _ offer_id user value _ c s i (rw e h)
                          (rw e orow)))
