-- ===== src/Market/LockedOffers.antt =====
-- The locks on the offers of a request.
use escrow_fx_marketplace.Common.{ℕ, ◌≡◌, refl, ◌∙◌, List, [], ◌∷◌, arith, All, leb, subst}
use escrow_fx_marketplace.Domain.Entities.{ExchangeOffer}
use escrow_fx_marketplace.Store.Action.{Env, Session, collect}
use escrow_fx_marketplace.Store.Ensures.{
  Ensures, IsSerial, Ensures-bind, raise_if-Ensures, pure-Ensures,
}
use escrow_fx_marketplace.Store.Offers
use escrow_fx_marketplace.Store.Db.{Db}
use escrow_fx_marketplace.Market.Reads.{IsOfferRow, lock-IsOfferRow}
use escrow_fx_marketplace.Service.Locks.{lock_offers, lock_offer}
use escrow_fx_marketplace.Store.Table.{sort_by}

abbrev pub ids : List ExchangeOffer → List ℕ
ids [] = []
ids (o ∷ os) = o.id ∷ ids os

-- What holds by identifier of every locked offer holds of every listed one.
pub ids-All :
    (P : ℕ → Type 0) (bs xs : List ExchangeOffer)
    → ids bs ≡ ids xs
    → All (λ b. P b.id) bs
    → All (λ x. P x.id) xs
ids-All P bs [] e h = tt
ids-All P [] (x ∷ xs) e h = absurd (cc)
ids-All P (b ∷ bs) (x ∷ xs) e h =
    let same : b.id ≡ x.id = (ground arith) in
    (subst P same h.0, ids-All P bs xs (ground arith) h.1)

module _ {I : Db → Type 0} (env : Env) (serial : IsSerial env) where
  locks-Ensures :
      (request_id : ℕ) (initial xs : List ExchangeOffer) (s s₀ : Session)
      → I s.base
      → s.db ≡ s₀.db
      → Ensures I
          (λ bs d.
            (d ≡ s₀.db)
            × All (λ b. IsOfferRow b s₀.db × (b.request_id ≡ request_id)) bs
            × (ids bs ≡ ids xs))
          (collect xs (lock_offer request_id initial) env s)
  unfolding collect lock_offer
  locks-Ensures request_id initial [] s s₀ i e = pure-Ensures env [] s i (e, tt, refl)
  locks-Ensures request_id initial (x ∷ xs) s s₀ i e =
      Ensures-bind
        {P = λ b d. (d ≡ s₀.db) × IsOfferRow b s₀.db × (b.request_id ≡ request_id) × (b.id ≡ x.id)}
        (lock_offer request_id initial x) _ s
        (Ensures-bind (Offers.get_for_update x.id) _ s (lock-IsOfferRow env serial x.id s i)
          λ o s₁ i₁ (e₁, oid, row).
            raise_if-Ensures _ _ _ s₁ i₁
              λ own. pure-Ensures env o s₁ i₁ (e₁ ∙ e, rw e at row, ground (arith, own), oid))
        λ b s₁ i₁ (e₁, row, own, bid).
          Ensures-bind (collect xs (lock_offer request_id initial)) _ s₁
            (locks-Ensures request_id initial xs s₁ s₀ i₁ e₁)
            λ bs s₂ i₂ (e₂, rows, same).
              pure-Ensures env (b ∷ bs) s₂ i₂ (e₂, ((row, own), rows), cc)

  -- The locked offers are rows of the request, and cover every offer of the request.
  pub lock_offers-Ensures :
      (request_id : ℕ) (initial : List ExchangeOffer) (s : Session)
      → I s.base
      → Ensures I
          (λ bs d.
            (d ≡ s.db)
            × All (λ b. IsOfferRow b s.db × (b.request_id ≡ request_id)) bs
            × (ids bs ≡ ids (sort_by (λ a b. leb a.id b.id) (Offers.of_request request_id s.db))))
          (lock_offers request_id initial (Offers.of_request request_id s.db) env s)
  unfolding lock_offers
  lock_offers-Ensures request_id initial s i =
      locks-Ensures request_id initial
        (sort_by (λ a b. leb a.id b.id) (Offers.of_request request_id s.db)) s s i refl
