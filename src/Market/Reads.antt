-- ===== src/Market/Reads.antt =====
-- What the locked reads of requests and offers return, one transaction after the other.
use escrow_fx_marketplace.Common.{ℕ, ◌≡◌, refl, sym, subst, ◌∙◌, some, arith, ◌==◌, ==→eq}
use escrow_fx_marketplace.Domain.Entities.{ExchangeRequest, ExchangeOffer}
use escrow_fx_marketplace.Store.Db.{Db}
use escrow_fx_marketplace.Store.Action.{Env, Session}
use escrow_fx_marketplace.Store.Ensures.{
  Ensures, IsSerial, Ensures-bind, fetch-Ensures, fetch_last-Ensures, raise_if-Ensures,
  wait-Ensures, pure-Ensures,
}
use escrow_fx_marketplace.Store.Requests
use escrow_fx_marketplace.Store.Offers
use escrow_fx_marketplace.Store.Users.{lock_users_in_order}
use escrow_fx_marketplace.Service.Offers.{lock_existing_offer_context}
use escrow_fx_marketplace.Market.Rows.{find-passes}
use escrow_fx_marketplace.Market.Frame.{lock_users-Same}

pub request_by_id-id :
    (id : ℕ) (d : Db) {r : ExchangeRequest} → Requests.by_id id d ≡ some r → r.id ≡ id
request_by_id-id id d {r} e = ==→eq r.id id (find-passes (λ r. r.id == id) d.requests e)

pub offer_by_id-id : (id : ℕ) (d : Db) {o : ExchangeOffer} → Offers.by_id id d ≡ some o → o.id ≡ id
offer_by_id-id id d {o} e = ==→eq o.id id (find-passes (λ o. o.id == id) d.offers e)

-- The row is found under its own identifier.
abbrev pub IsRequestRow : ExchangeRequest → Db → Type 0
IsRequestRow r d = Requests.by_id r.id d ≡ some r

abbrev pub IsOfferRow : ExchangeOffer → Db → Type 0
IsOfferRow o d = Offers.by_id o.id d ≡ some o

pub request-IsRequestRow :
    (id : ℕ) (d : Db) (r : ExchangeRequest) → Requests.by_id id d ≡ some r → IsRequestRow r d
request-IsRequestRow id d r e =
    subst (λ k. Requests.by_id k d ≡ some r) (sym (request_by_id-id id d e)) e

pub offer-IsOfferRow :
    (id : ℕ) (d : Db) (o : ExchangeOffer) → Offers.by_id id d ≡ some o → IsOfferRow o d
offer-IsOfferRow id d o e = subst (λ k. Offers.by_id k d ≡ some o) (sym (offer_by_id-id id d e)) e

module _ {I : Db → Type 0} (env : Env) (serial : IsSerial env) where
  pub lock-IsRequestRow :
      (id : ℕ) (s : Session)
      → I s.base
      → Ensures I
          (λ r d. (d ≡ s.db) × (r.id ≡ id) × IsRequestRow r s.db)
          (Requests.get_for_update id env s)
  unfolding Requests.get_for_update
  lock-IsRequestRow id s i = wait-Ensures serial _ s (
      fetch_last-Ensures env _ _ _ i
        λ r e. (refl, request_by_id-id id s.db e, request-IsRequestRow id s.db r e))

  pub lock-IsOfferRow :
      (id : ℕ) (s : Session)
      → I s.base
      → Ensures I
          (λ o d. (d ≡ s.db) × (o.id ≡ id) × IsOfferRow o s.db)
          (Offers.get_for_update id env s)
  unfolding Offers.get_for_update
  lock-IsOfferRow id s i = wait-Ensures serial _ s (
      fetch_last-Ensures env _ _ _ i
        λ o e. (refl, offer_by_id-id id s.db e, offer-IsOfferRow id s.db o e))

  -- The context of an existing offer: its row and its request's row, both current.
  pub lock_context :
      (offer_id : ℕ) (s : Session)
      → I s.base
      → Ensures I
          (λ c d.
            (d ≡ s.db)
            × IsRequestRow c.request s.db
            × IsOfferRow c.offer s.db
            × (c.offer.request_id ≡ c.request.id)
            × (c.offer.id ≡ offer_id))
          (lock_existing_offer_context offer_id env s)
  unfolding lock_existing_offer_context Offers.get Requests.get
  lock_context offer_id s i = fetch-Ensures _ _ _ s i λ initial_offer _.
      fetch-Ensures _ _ _ s i λ initial_request _.
        Ensures-bind (lock_users_in_order _) _ s (lock_users-Same env serial _ s i)
          λ users s₁ i₁ e₁.
            Ensures-bind (Requests.get_for_update _) _ s₁ (lock-IsRequestRow _ s₁ i₁)
              λ request s₂ i₂ (e₂, rid, row).
                Ensures-bind (Offers.get_for_update _) _ s₂ (lock-IsOfferRow _ s₂ i₂)
                  λ offer s₃ i₃ (e₃, oid, orow). raise_if-Ensures _ _ _ s₃ i₃ λ unchanged.
                    pure-Ensures env _ s₃ i₃ (
                      e₃ ∙ e₂ ∙ e₁,
                      rw e₁ at row,
                      rw (e₂ ∙ e₁) at orow,
                      ground (arith, unchanged, rid),
                      oid,
                    )
