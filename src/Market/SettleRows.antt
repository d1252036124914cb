-- ===== src/Market/SettleRows.antt =====
-- What one round of the loop over the locked offers does to the rows.
use escrow_fx_marketplace.Common.{
  ℕ, ◌≡◌, refl, sym, ◌∙◌, ap, Bool, true, false, List, [], ◌∷◌, arith, ◌==◌, All, Bool-cases, inl,
  inr, map, subst, All-map, All-trivial, ==→eq,
}
use escrow_fx_marketplace.Domain.Enums.{ExchangeOfferStatus}
use escrow_fx_marketplace.Domain.Lifecycle.{offer_is_active}
use escrow_fx_marketplace.Domain.Entities.{ExchangeOffer}
use escrow_fx_marketplace.Store.Db.{Db}
use escrow_fx_marketplace.Market.Invariant.{offer_is_accepted, IsConsistentBut}
use escrow_fx_marketplace.Market.RequestWrites.{only}
use escrow_fx_marketplace.Market.OfferWrites.{saved}

-- The identifiers of the offers with their requests.
abbrev pub offer_keys : List ExchangeOffer → List (ℕ × ℕ)
offer_keys [] = []
offer_keys (o ∷ rows) = (o.id, o.request_id) ∷ offer_keys rows

pub saved-keys :
    (x : ExchangeOffer) (rows : List ExchangeOffer)
    → offer_keys (map (saved x) rows) ≡ offer_keys rows
saved-keys x [] = refl
saved-keys x (o ∷ rows) = ground (arith, saved-keys x rows)

module _ (status_of : ℕ → ExchangeOfferStatus)
    (ended : (id : ℕ) → offer_is_active (status_of id) ≡ false) where
  -- What is known of the row of a locked offer while the loop runs.
  abbrev pub IsCovered : ExchangeOffer → Db → Type 0
  IsCovered x d =
      All
        (λ o.
          o.id ≡ x.id
          → (offer_is_active o.status ≡ true → offer_is_active x.status ≡ true)
            × (offer_is_accepted o.status ≡ true
                → offer_is_active x.status ≡ true
                → offer_is_accepted (status_of x.id) ≡ true))
        d.offers

  -- What is known of it once its round is over.
  abbrev pub IsSettled : ExchangeOffer → Db → Type 0
  IsSettled x d =
      All
        (λ o.
          o.id ≡ x.id
          → (offer_is_active o.status ≡ false)
            × (offer_is_active x.status ≡ true → o.status ≡ status_of x.id))
        d.offers

  abbrev pub ended_as : ℕ → ExchangeOffer → ExchangeOffer
  ended_as now x = record x { status = status_of x.id; updated_at = now }

  pub covered-step :
      (now : ℕ) (x y : ExchangeOffer) (rows : List ExchangeOffer)
      → All
          (λ o.
            o.id ≡ y.id
            → (offer_is_active o.status ≡ true → offer_is_active y.status ≡ true)
              × (offer_is_accepted o.status ≡ true
                  → offer_is_active y.status ≡ true
                  → offer_is_accepted (status_of y.id) ≡ true))
          rows
      → All
          (λ o.
            o.id ≡ y.id
            → (offer_is_active o.status ≡ true → offer_is_active y.status ≡ true)
              × (offer_is_accepted o.status ≡ true
                  → offer_is_active y.status ≡ true
                  → offer_is_accepted (status_of y.id) ≡ true))
          (map (saved (ended_as now x)) rows)
  covered-step now x y rows h =
      All-map _ _ (saved (ended_as now x))
        (λ o p e. elim (Bool-cases (o.id == x.id)) [
          | inl own ↦ rw own (
            (λ act. absurd (ground (arith, act, ended x.id))),
            (λ acc _.
                subst (λ k. offer_is_accepted (status_of k) ≡ true) (ground (arith, own, e)) acc),
          )
          | inr other ↦ rw other (p (rw other at e))
        ])
        rows h

  pub settled-step :
      (now : ℕ) (x y : ExchangeOffer) (rows : List ExchangeOffer)
      → All
          (λ o.
            o.id ≡ y.id
            → (offer_is_active o.status ≡ false)
              × (offer_is_active y.status ≡ true → o.status ≡ status_of y.id))
          rows
      → All
          (λ o.
            o.id ≡ y.id
            → (offer_is_active o.status ≡ false)
              × (offer_is_active y.status ≡ true → o.status ≡ status_of y.id))
          (map (saved (ended_as now x)) rows)
  settled-step now x y rows h =
      All-map _ _ (saved (ended_as now x))
        (λ o p e. elim (Bool-cases (o.id == x.id)) [
          | inl own ↦
              rw own (ended x.id, (λ _. ap status_of (sym (==→eq o.id x.id own) ∙ rw own at e)))
          | inr other ↦ rw other (p (rw other at e))
        ])
        rows h

  pub settled_self :
      (now : ℕ) (x : ExchangeOffer) (rows : List ExchangeOffer)
      → All
          (λ o.
            o.id ≡ x.id
            → (offer_is_active o.status ≡ false)
              × (offer_is_active x.status ≡ true → o.status ≡ status_of x.id))
          (map (saved (ended_as now x)) rows)
  settled_self now x rows =
      All-map (λ _. Unit {0}) _ (saved (ended_as now x))
        (λ o _ e. elim (Bool-cases (o.id == x.id)) [
          | inl own ↦ rw own (ended x.id, (λ _. refl))
          | inr other ↦ absurd (ground (arith, other, e))
        ])
        rows (All-trivial rows)

  -- What the loop keeps of the state in which it started.
  abbrev pub IsUnderway : (request_id : ℕ) (exempt_trades : ℕ → Bool) (before d : Db) → Type 0
  IsUnderway request_id exempt_trades before d =
      IsConsistentBut (only request_id) exempt_trades d
      × (offer_keys d.offers ≡ offer_keys before.offers)
      × (d.requests ≡ before.requests)
      × (d.trades ≡ before.trades)
