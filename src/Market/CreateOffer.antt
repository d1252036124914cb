-- ===== src/Market/CreateOffer.antt =====
-- `create_offer` keeps the invariant.
use escrow_fx_marketplace.Common.{
  ℕ, ◌≡◌, refl, sym, subst, ◌∙◌, true, false, ◌&&◌, Option, some, List, [], ◌∷◌, arith, ◌==◌, inr,
}
use escrow_fx_marketplace.Domain.Enums.{ExchangeRequestStatus, request_is_open}
use escrow_fx_marketplace.Domain.Lifecycle.{request_can_accept_offers}
use escrow_fx_marketplace.Domain.Decimal.{Decimal, Number}
use escrow_fx_marketplace.Domain.Entities.{ExchangeRequest, ExchangeOffer, User}
use escrow_fx_marketplace.Store.Db.{Db}
use escrow_fx_marketplace.Store.Action.{Env, Session, when, transact}
use escrow_fx_marketplace.Store.Ensures.{
  Ensures, IsSerial, Ensures-bind, Ensures-then, fetch-Ensures, fetch_last-Ensures,
  raise_if-Ensures, utc_now-Ensures, reads-Ensures, pure-Ensures, when-Ensures, lift-Ensures,
  Ensures-weaken, transact-Ensures, uuid4-Ensures, write_if-Ensures, collect-Ensures, raise-Ensures,
}
use escrow_fx_marketplace.Store.Requests
use escrow_fx_marketplace.Store.Offers
use escrow_fx_marketplace.Store.Outbox.{publish}
use escrow_fx_marketplace.Store.Idempotency.{IdempotencyRequest, Claim}
use escrow_fx_marketplace.Market.Rows.{find_unique, find-passes, find-All, any-find}
use escrow_fx_marketplace.Market.Invariant.{IsConsistentBut, IsConsistent, nothing, request_key}
use escrow_fx_marketplace.Market.Frame.{SameMarket-consistent, publish-Same, lock_users-Same}
use escrow_fx_marketplace.Market.Reads.{
  IsRequestRow, lock-IsRequestRow, request_by_id-id, request-IsRequestRow,
}
use escrow_fx_marketplace.Market.Brackets.{
  board-unlocked, update_request_row, conclude-IsConsistent, with_claim-IsConsistent,
}
use escrow_fx_marketplace.Store.Users.{user_of, lock_users_in_order}
use escrow_fx_marketplace.Service.Offers.{
  record_offer, submit_offer, create_offer, create_offer_claimed,
}
use escrow_fx_marketplace.Market.RequestWrites.{
  only, grant_exemption, pend_exempt-IsConsistent, end_exemption,
}
use escrow_fx_marketplace.Market.OfferWrites.{insert_offer-IsConsistentBut}

-- A request that somebody else than its creator sees is on the board.
visible-board :
    (id viewer now : ℕ) (d : Db) (request : ExchangeRequest) (r : ExchangeRequest)
    → IsConsistent d
    → Requests.by_id id d ≡ some request
    → (request.creator_user_id == viewer) ≡ false
    → Requests.find_visible id viewer now d ≡ some r
    → request_can_accept_offers request.status ≡ true
visible-board id viewer now d request r h row other seen =
    let t = find-passes (λ r. r.id == id && Requests.is_visible d viewer now r) d.requests seen in
    let u =
      find-All (λ r. r.id == id && Requests.is_visible d viewer now r)
        (λ y. y.id ≡ id → y ≡ request) d.requests
        (find_unique request_key id d.requests h.requests_keyed row) seen in
    let rid : r.id ≡ id = ground (arith, t) in let same = u rid in board (rw same at t)
  where
    board :
        (request.id == id && Requests.is_visible d viewer now request) ≡ true
        → request_can_accept_offers request.status ≡ true
    board e = ground (arith, other, e)

module _ (env : Env) (serial : IsSerial env) where
  visible_request :
      (id viewer : ℕ) (request : ExchangeRequest) (s : Session)
      → IsConsistent s.base
      → IsConsistent s.db
      → Requests.by_id id s.db ≡ some request
      → (request.creator_user_id == viewer) ≡ false
      → Ensures IsConsistent
          (λ _ d. (d ≡ s.db) × (request_can_accept_offers request.status ≡ true))
          (Requests.get_visible_details id viewer env s)
  unfolding Requests.get_visible_details
  visible_request id viewer request s i h row other = utc_now-Ensures _ s (
      fetch_last-Ensures env _ _ _ i
        λ r seen. (refl, visible-board id viewer _ s.db request r h row other seen))

  active_offer-Same :
      (id user : ℕ) (s : Session)
      → IsConsistent s.base
      → Ensures IsConsistent (λ _ d. d ≡ s.db) (Offers.has_active_offer_for_request id user env s)
  unfolding Offers.has_active_offer_for_request
  active_offer-Same id user s i = utc_now-Ensures _ s (reads-Ensures _ _ _ (single _ _ i refl))
    where
      single :
          (rows : List ExchangeOffer) (s' : Session)
          → IsConsistent s'.base
          → s'.db ≡ s.db
          → Ensures IsConsistent (λ _ d. d ≡ s.db) (Offers.one_or_none rows env s')
      single [] s' i e = unfold Offers.one_or_none in pure-Ensures env _ s' i e
      single (_ ∷ []) s' i e = unfold Offers.one_or_none in pure-Ensures env _ s' i e
      single (_ ∷ _ ∷ _) s' i e = unfold Offers.one_or_none in raise-Ensures env _ s' i

  add_offer :
      (o : ExchangeOffer) (s : Session)
      → IsConsistent s.base
      → Ensures IsConsistent
          (λ _ d. (d ≡ Offers.insert o s.db) × (Offers.key_is_free o s.db ≡ true))
          (Offers.add o env s)
  unfolding Offers.add
  add_offer o s i = write_if-Ensures _ _ _ _ s i λ free. pure-Ensures env _ _ i (refl, free)

  list_details-Same :
      (id : ℕ) (s : Session)
      → IsConsistent s.base
      → Ensures IsConsistent (λ _ d. d ≡ s.db) (Offers.list_details_for_request id env s)
  unfolding Offers.list_details_for_request Offers.list_for_request
  list_details-Same id s i = reads-Ensures _ _ s (
      Ensures-weaken
        (collect-Ensures (λ d. d ≡ s.db) (λ _. Unit {0}) _
          (λ o s' i' e. fetch_last-Ensures env _ _ s' i' λ _ _. (tt, e)) _ s i refl)
        λ _ d p. p.1)

  -- The new offer, and the request that becomes pending with it.
  pend :
      (request : ExchangeRequest) (now : ℕ) (s : Session)
      → IsConsistent s.base
      → IsConsistentBut (only request.id) nothing s.db
      → Requests.by_id request.id s.db ≡ some request
      → request_can_accept_offers request.status ≡ true
      → Ensures IsConsistent
          (λ _ d. IsConsistent d)
          (when
            (request_is_open request.status)
            (Requests.update
              (record request { status = ExchangeRequestStatus.offer_pending; updated_at = now }))
            tt
            env
            s)
  pend request now s i h row board =
      when-Ensures env _ _ _ s i
        (λ open_now. Ensures-weaken (update_request_row env _ s i) λ _ d e. rw e (
          pend_exempt-IsConsistent s.db
            (record request { status = ExchangeRequestStatus.offer_pending; updated_at = now })
            request h row (board-unlocked request.status board) refl))
        (λ closed.
          end_exemption nothing request.id s.db h
            (inr (any-find _ _ s.db.requests row (ground (arith, board, closed)))))

  record_offer-IsConsistent :
      (request : ExchangeRequest) (o : ExchangeOffer) (now : ℕ) (claim : Claim) (s : Session)
      → IsConsistent s.base
      → IsConsistent s.db
      → IsRequestRow request s.db
      → request_can_accept_offers request.status ≡ true
      → o.request_id ≡ request.id
      → Ensures IsConsistent (λ _ d. IsConsistent d) (record_offer request o now claim env s)
  unfolding record_offer
  record_offer-IsConsistent request o now claim s i h row board own =
      Ensures-bind (Offers.add o) _ s (add_offer o s i) λ created s₁ i₁ (e₁, free).
        Ensures-then (when _ _ tt) _ s₁
          (pend request now s₁ i₁
            (rw e₁ (
              insert_offer-IsConsistentBut (only request.id) s.db o
                (grant_exemption (only request.id) nothing s.db h) free (ground (arith, own))))
            (rw e₁ row) board)
          λ s₂ i₂ h₂. Ensures-then (publish _ _ _) _ s₂ (publish-Same env _ _ _ s₂ i₂) λ s₃ i₃ same.
            Ensures-bind (Offers.list_details_for_request _) _ s₃ (list_details-Same _ s₃ i₃)
              λ offers s₄ i₄ e₄. fetch-Ensures _ _ _ s₄ i₄ λ details _.
                conclude-IsConsistent env claim 201 _ now s₄ i₄
                  (rw e₄ (SameMarket-consistent s₂.db s₃.db same h₂))

  submit_offer-IsConsistent :
      (id user : ℕ) (rate : Number) (now : ℕ) (request : ExchangeRequest) (users : List User)
      (claim : Claim) (s : Session)
      → IsConsistent s.base
      → IsConsistent s.db
      → Requests.by_id id s.db ≡ some request
      → (request.creator_user_id == user) ≡ false
      → Ensures IsConsistent
          (λ _ d. IsConsistent d)
          (submit_offer id user rate now request users claim env s)
  unfolding submit_offer user_of
  submit_offer-IsConsistent id user rate now request users claim s i h row other =
      fetch-Ensures _ _ _ s i λ owner _. raise_if-Ensures _ _ _ s i λ _.
        raise_if-Ensures _ _ _ s i λ _. fetch-Ensures _ _ _ s i λ creator _.
          raise_if-Ensures _ _ _ s i λ _. raise_if-Ensures _ _ _ s i λ _.
            Ensures-bind (Requests.get_visible_details id user) _ s
              (visible_request id user request s i h row other)
              λ _ s₁ i₁ (e₁, board). raise_if-Ensures _ _ _ s₁ i₁ λ _.
                Ensures-bind (Offers.has_active_offer_for_request id user) _ s₁
                  (active_offer-Same id user s₁ i₁)
                  λ taken s₂ i₂ e₂. raise_if-Ensures _ _ _ s₂ i₂ λ _. uuid4-Ensures _ s₂ (
                    record_offer-IsConsistent request _ now claim _ i₂ (rw (e₂ ∙ e₁) h)
                      (rw (e₂ ∙ e₁) (request-IsRequestRow id s.db request row)) board
                      (sym (request_by_id-id id s.db row)))

  create_offer_claimed-IsConsistent :
      (id user : ℕ) (rate : Number) (now : ℕ) (claim : Claim) (s : Session)
      → IsConsistent s.base
      → IsConsistent s.db
      → Ensures IsConsistent
          (λ _ d. IsConsistent d)
          (create_offer_claimed id user rate now claim env s)
  unfolding create_offer_claimed Requests.get
  create_offer_claimed-IsConsistent id user rate now claim s i h =
      fetch-Ensures _ _ _ s i λ initial_request _. raise_if-Ensures _ _ _ s i λ foreign.
        Ensures-bind (lock_users_in_order _) _ s (lock_users-Same env serial _ s i)
          λ users s₁ i₁ e₁.
            Ensures-bind (Requests.get_for_update id) _ s₁ (lock-IsRequestRow env serial id s₁ i₁)
              λ request s₂ i₂ (e₂, rid, row). raise_if-Ensures _ _ _ s₂ i₂ λ same_creator.
                submit_offer-IsConsistent id user rate now request users claim s₂ i₂
                  (rw (e₂ ∙ e₁) h)
                  (rw e₂ (subst (λ k. Requests.by_id k s₁.db ≡ some request) rid row))
                  (ground (arith, foreign, same_creator))

  -- When transactions run one after the other, making an offer, whatever the outcome,
  -- leaves a committed marketplace consistent that was so before.
  pub create_offer-IsConsistent :
      (request_id offer_user_id : ℕ) (rate : Decimal) (q : Option IdempotencyRequest) (d : Db)
      → IsConsistent d
      → IsConsistent (transact (create_offer request_id offer_user_id rate q) env d).1
  unfolding create_offer
  create_offer-IsConsistent request_id offer_user_id rate q d h =
      transact-Ensures (λ _ d. IsConsistent d) _ env d
        (lift-Ensures _ _ _ h λ value _. utc_now-Ensures _ _ (
          with_claim-IsConsistent env serial q _ _ _ h h λ claim s i h.
            create_offer_claimed-IsConsistent request_id offer_user_id value _ claim s i h))
