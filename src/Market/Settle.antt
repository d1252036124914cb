-- ===== src/Market/Settle.antt =====
-- The loops of `accept_offer` and `cancel_request` over the locked offers of a request.
use escrow_fx_marketplace.Common.{
  ℕ, ◌≡◌, refl, sym, ◌∙◌, ap, Bool, true, false, List, [], ◌∷◌, arith, All, All-weaken, subst,
}
use escrow_fx_marketplace.Domain.Enums.{ExchangeOfferStatus}
use escrow_fx_marketplace.Domain.Lifecycle.{offer_is_active}
use escrow_fx_marketplace.Domain.Entities.{ExchangeOffer}
use escrow_fx_marketplace.Store.Db.{Db}
use escrow_fx_marketplace.Store.Action.{Env, Session, Action, ◌>>◌, when, for_each}
use escrow_fx_marketplace.Store.Ensures.{
  Ensures, Ensures-then, pure-Ensures, when-Ensures, Ensures-weaken,
}
use escrow_fx_marketplace.Store.Offers
use escrow_fx_marketplace.Market.Rows.{find_unique}
use escrow_fx_marketplace.Market.Invariant.{offer_key, IsConsistent}
use escrow_fx_marketplace.Market.OfferWrites.{save_offer-IsConsistentBut}
use escrow_fx_marketplace.Market.Frame.{SameMarket, SameMarket-consistent}
use escrow_fx_marketplace.Market.Reads.{IsOfferRow}
use escrow_fx_marketplace.Market.Brackets.{update_offer_row}
use escrow_fx_marketplace.Market.RequestWrites.{only}
use escrow_fx_marketplace.Market.SettleRows.{
  saved-keys, offer_keys, IsCovered, IsSettled, IsUnderway, ended_as, covered-step, settled-step,
  settled_self,
}

module _ (status_of : ℕ → ExchangeOfferStatus)
    (ended : (id : ℕ) → offer_is_active (status_of id) ≡ false) (env : Env)
    (announce : ExchangeOffer → Action (Unit {0}))
    (quiet : (x : ExchangeOffer) (s : Session)
      → IsConsistent s.base
      → Ensures IsConsistent (λ _ d. SameMarket s.db d) (announce x env s))
    (request_id now : ℕ) (exempt_trades : ℕ → Bool) (before : Db) where
  abbrev round : ExchangeOffer → Action (Unit {0})
  round x =
      when (offer_is_active x.status)
        (Offers.update ((ended_as status_of ended) now x) >> announce x) tt

  IsUnderway-step :
      (x : ExchangeOffer) (d : Db)
      → (IsUnderway status_of ended) request_id exempt_trades before d
      → (IsCovered status_of ended) x d
      → offer_is_active x.status ≡ true
      → (IsUnderway status_of ended) request_id exempt_trades before
          (Offers.save ((ended_as status_of ended) now x) d)
  IsUnderway-step x d (h, k, r, t) covered active = (
    save_offer-IsConsistentBut (only request_id) exempt_trades d h
        ((ended_as status_of ended) now x)
        (All-weaken _ _ (λ o p e acc. (p e).1 acc active) d.offers covered)
        (All-weaken _ _ (λ o _ _ act. absurd (ground (arith, act, ended x.id))) d.offers covered),
    saved-keys ((ended_as status_of ended) now x) d.offers ∙ k,
    r,
    t,
  )

  -- The state in the middle of the loop: the offers to come are covered, those behind settled.
  abbrev Midway : (to_come behind : List ExchangeOffer) (d : Db) → Type 0
  Midway to_come behind d =
      (IsUnderway status_of ended) request_id exempt_trades before d
      × All (λ y. (IsCovered status_of ended) y d) to_come
      × All (λ z. (IsSettled status_of ended) z d) behind

  Midway-Same :
      (to_come behind : List ExchangeOffer) (d d' : Db)
      → SameMarket d d'
      → Midway to_come behind d
      → Midway to_come behind d'
  Midway-Same to_come behind d d' same (u, c, z) = (
    (SameMarket-consistent d d' same u.0, ap offer_keys same.1 ∙ u.1, same.0 ∙ u.2, same.2 ∙ u.3),
    rw same.1 c,
    rw same.1 z,
  )

  skipped :
      (x : ExchangeOffer) (d : Db)
      → offer_is_active x.status ≡ false
      → (IsCovered status_of ended) x d
      → (IsSettled status_of ended) x d
  skipped x d inactive =
      All-weaken _ _
        (λ o p e. (
          no_more_active (offer_is_active o.status) (p e).0,
          (λ act. absurd (ground (arith, act, inactive))),
        ))
        d.offers
    where
      no_more_active : (b : Bool) → (b ≡ true → offer_is_active x.status ≡ true) → b ≡ false
      no_more_active true f = absurd (ground (arith, f refl, inactive))
      no_more_active false f = refl

  round-Ensures :
      (x : ExchangeOffer) (xs zs : List ExchangeOffer) (s : Session)
      → IsConsistent s.base
      → Midway (x ∷ xs) zs s.db
      → Ensures IsConsistent (λ _ d. Midway xs (x ∷ zs) d) (round x env s)
  round-Ensures x xs zs s i (u, c, z) =
      when-Ensures env _ _ _ s i
        (λ active.
          Ensures-then (Offers.update ((ended_as status_of ended) now x)) (announce x) s
            (update_offer_row env ((ended_as status_of ended) now x) s i)
            λ s₁ i₁ e₁. Ensures-weaken (quiet x s₁ i₁) λ _ d same.
              Midway-Same xs (x ∷ zs) s₁.db d same
                (subst (Midway xs (x ∷ zs)) (sym e₁) (after active)))
        (λ inactive. (u, c.1, (skipped x s.db inactive c.0, z)))
    where
      after :
          offer_is_active x.status ≡ true
          → Midway xs (x ∷ zs) (Offers.save ((ended_as status_of ended) now x) s.db)
      after active = (
        IsUnderway-step x s.db u c.0 active,
        All-weaken _ _ (λ y h. (covered-step status_of ended) now x y s.db.offers h) xs c.1,
        (
          (settled_self status_of ended) now x s.db.offers,
          All-weaken _ _ (λ y h. (settled-step status_of ended) now x y s.db.offers h) zs z,
        ),
      )

  rounds-Ensures :
      (xs zs : List ExchangeOffer) (s : Session)
      → IsConsistent s.base
      → Midway xs zs s.db
      → Ensures IsConsistent
          (λ _ d.
            (IsUnderway status_of ended) request_id exempt_trades before d
            × All (λ x. (IsSettled status_of ended) x d) xs
            × All (λ z. (IsSettled status_of ended) z d) zs)
          (for_each xs round env s)
  unfolding for_each
  rounds-Ensures [] zs s i (u, _, z) = pure-Ensures env tt s i (u, tt, z)
  rounds-Ensures (x ∷ xs) zs s i m =
      Ensures-then (round x) (for_each xs round) s (round-Ensures x xs zs s i m) λ s₁ i₁ m₁.
        Ensures-weaken (rounds-Ensures xs (x ∷ zs) s₁ i₁ m₁)
          λ _ d (u, settled, h). (u, (h.0, settled), h.1)

  -- The loop over offers whose rows are current settles each of them.
  pub loop-Ensures :
      (xs : List ExchangeOffer) (s : Session)
      → IsConsistent s.base
      → (IsUnderway status_of ended) request_id exempt_trades before s.db
      → All (λ x. IsOfferRow x s.db) xs
      → Ensures IsConsistent
          (λ _ d.
            (IsUnderway status_of ended) request_id exempt_trades before d
            × All (λ x. (IsSettled status_of ended) x d) xs)
          (for_each xs round env s)
  loop-Ensures xs s i u rows =
      Ensures-weaken
        (rounds-Ensures xs [] s i (u, All-weaken _ _ (λ x row. covered x row) xs rows, tt))
        λ _ d (u, settled, _). (u, settled)
    where
      covered : (x : ExchangeOffer) → IsOfferRow x s.db → (IsCovered status_of ended) x s.db
      covered x row =
          All-weaken (λ o. o.id ≡ x.id → o ≡ x) _
            (λ o same e. (
              (λ act. ap (λ (o : ExchangeOffer). offer_is_active o.status) (sym (same e)) ∙ act),
              (λ acc act.
                  absurd (ground (arith, ap (λ (o : ExchangeOffer). o.status) (same e), acc, act))),
            ))
            s.db.offers (find_unique offer_key x.id s.db.offers u.0.offers_keyed row)
