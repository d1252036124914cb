-- ===== src/Market/EditRequest.antt =====
-- `update_request` keeps the invariant.
use escrow_fx_marketplace.Common.{
  ℕ, ◌≡◌, sym, ◌∙◌, true, false, arith, ◌==◌, All-weaken, any, subst,
}
use escrow_fx_marketplace.Domain.Enums.{request_is_open}
use escrow_fx_marketplace.Domain.Entities.{ExchangeRequest}
use escrow_fx_marketplace.Store.Db.{Db}
use escrow_fx_marketplace.Store.Action.{Env, Session, transact}
use escrow_fx_marketplace.Store.Ensures.{
  Ensures, IsSerial, Ensures-bind, Ensures-then, fetch-Ensures, raise_if-Ensures, utc_now-Ensures,
  reads-Ensures, pure-Ensures, commit-Ensures, lift-Ensures, transact-Ensures,
}
use escrow_fx_marketplace.Store.Requests
use escrow_fx_marketplace.Market.Rows.{any-All}
use escrow_fx_marketplace.Market.Invariant.{IsConsistent, NoActiveOffer, nothing}
use escrow_fx_marketplace.Market.Reads.{IsRequestRow, lock-IsRequestRow}
use escrow_fx_marketplace.Market.Brackets.{update_request_row}
use escrow_fx_marketplace.Store.Users.{user_of, lock_users_in_order}
use escrow_fx_marketplace.Store.References.{get_currency}
use escrow_fx_marketplace.Service.Requests.{
  update_request, change_terms, require_active_verified_user,
}
use escrow_fx_marketplace.Service.Terms.{Terms, Changes}
use escrow_fx_marketplace.Market.RequestWrites.{close_request-IsConsistent}
use escrow_fx_marketplace.Market.Frame.{lock_users-Same}
use escrow_fx_marketplace.Market.RequestOps.{details-Same, require-Same}

module _ (env : Env) (serial : IsSerial env) where
  -- A request without any offer has no active one.
  no_offers-NoActiveOffer :
      (id : ℕ) (d : Db) → any (λ o. o.request_id == id) d.offers ≡ false → NoActiveOffer id d
  no_offers-NoActiveOffer id d e =
      All-weaken _ _ (λ o f t. absurd (ground (arith, f, t))) d.offers
        (any-All (λ o. o.request_id == id) d.offers e)

  change_terms-IsConsistent :
      (id user now : ℕ) (request : ExchangeRequest) (terms : Terms) (s : Session)
      → IsConsistent s.base
      → IsConsistent s.db
      → IsRequestRow request s.db
      → request_is_open request.status ≡ true
      → any (λ o. o.request_id == request.id) s.db.offers ≡ false
      → Ensures IsConsistent (λ _ d. IsConsistent d) (change_terms id user now request terms env s)
  unfolding change_terms
  change_terms-IsConsistent id user now request terms s i h row opened none_made =
      Ensures-then (Requests.update _) _ s (update_request_row env _ s i) λ s₁ i₁ e₁.
        let h₁ : IsConsistent s₁.db = (rw e₁ saved) in
        commit-Ensures _ s₁ (
          Ensures-bind (Requests.get_details_for_user id user) _ _
            (details-Same env serial id user _ h₁)
            λ details s₂ i₂ e₂. pure-Ensures env _ s₂ i₂ (rw e₂ h₁))
    where
      saved : IsConsistent (
          Requests.save
            (record request {
              from_amount = terms.amount;
              preferred_rate = terms.preferred;
              min_rate = terms.minimum;
              updated_at = now;
            })
            s.db)
      saved =
          close_request-IsConsistent nothing s.db
            (record request {
              from_amount = terms.amount;
              preferred_rate = terms.preferred;
              min_rate = terms.minimum;
              updated_at = now;
            })
            request h row (ground (arith, opened))
            (no_offers-NoActiveOffer request.id s.db none_made)

  -- When transactions run one after the other, editing a request, whatever the outcome,
  -- leaves a committed marketplace consistent that was so before.
  pub update_request-IsConsistent :
      (id user : ℕ) (changes : Changes) (d : Db)
      → IsConsistent d
      → IsConsistent (transact (update_request id user changes) env d).1
  unfolding update_request Requests.get user_of get_currency Requests.has_any_offers
  update_request-IsConsistent id user changes d h =
      transact-Ensures (λ _ d. IsConsistent d) _ env d
        (utc_now-Ensures _ _ (
          raise_if-Ensures _ _ _ _ h λ _. fetch-Ensures _ _ _ _ h λ initial_request _.
            raise_if-Ensures _ _ _ _ h λ _.
              Ensures-bind (lock_users_in_order _) _ _ (lock_users-Same env serial _ _ h)
                λ users s₁ i₁ e₁. fetch-Ensures _ _ _ s₁ i₁ λ owner _.
                  Ensures-then (require_active_verified_user _ _) _ s₁
                    (require-Same env serial _ _ s₁ i₁)
                    λ s₂ i₂ e₂.
                      Ensures-bind (Requests.get_for_update id) _ s₂
                        (lock-IsRequestRow env serial id s₂ i₂)
                        λ request s₃ i₃ (e₃, rid, row). raise_if-Ensures _ _ _ s₃ i₃ λ _.
                          raise_if-Ensures _ _ _ s₃ i₃ λ editable. raise_if-Ensures _ _ _ s₃ i₃ λ _.
                            reads-Ensures _ _ s₃ (
                              raise_if-Ensures _ _ _ s₃ i₃ λ none_made.
                                fetch-Ensures _ _ _ s₃ i₃ λ _ _. lift-Ensures _ _ s₃ i₃ λ terms _.
                                  change_terms-IsConsistent id user _ request terms s₃ i₃
                                    (rw (e₃ ∙ e₂ ∙ e₁) h) (rw e₃ row) (ground (arith, editable))
                                    (subst (λ k. any (λ o. o.request_id == k) s₃.db.offers ≡ false)
                                      (sym rid) none_made))))
