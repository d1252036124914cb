-- ===== src/Market/Accepted.antt =====
-- `accept_offer`: what it commits.
use escrow_fx_marketplace.Common.{ℕ, ◌≡◌, refl, sym, ◌∙◌, ap, Option, arith, ◌==◌, subst, ==→eq}
use escrow_fx_marketplace.Store.Db.{Db, Response}
use escrow_fx_marketplace.Store.Action.{Env, Session, transact}
use escrow_fx_marketplace.Store.Ensures.{
  Ensures, IsSerial, fetch-Ensures, fetch_last-Ensures, Ends, IsOutcome, Ends-bind, Ends-then,
  utc_now-Ends, commit-Ends, pure-Ends, fetch-Ends, raise_if-Ends, reads-Ends, transact-Ends,
}
use escrow_fx_marketplace.Domain.Errors.{Result}
use escrow_fx_marketplace.Service.Outcome.{
  Outcome, response, replayed, conclude, with_claim, unless_replay,
}
use escrow_fx_marketplace.Store.Requests
use escrow_fx_marketplace.Store.Offers
use escrow_fx_marketplace.Store.Idempotency.{
  IdempotencyRequest, Claim, complete_idempotency, unkeyed, claimed, replay, claim_idempotency,
}
use escrow_fx_marketplace.Market.Reads.{IsOfferRow, lock-IsRequestRow}
use escrow_fx_marketplace.Store.Users.{lock_users_in_order}
use escrow_fx_marketplace.Market.Frame.{
  lock_users-Same, SameMarket, complete-Same, claim_idempotency-Same,
}
use escrow_fx_marketplace.Market.LockedOffers.{lock_offers-Ensures}
use escrow_fx_marketplace.Service.Locks.{lock_offers}
use escrow_fx_marketplace.Market.Rows.{find-passes, find-All}
use escrow_fx_marketplace.Store.Trades
use escrow_fx_marketplace.Service.Trades.{
  accept_offer, accept_offer_claimed, lock_terms, check_acceptable, corridor_for_trade,
}
use escrow_fx_marketplace.Market.Accepting.{
  IsAcceptance, check_acceptable-Ensures, corridor-Ensures, lock_terms-Ensures,
}

abbrev pub IsLeft : (offer_id user now : ℕ) (before : Db) → Outcome → (after : Db) → Type 0
IsLeft offer_id user now before (response body) after = IsAcceptance offer_id user now before after
IsLeft offer_id user now before (replayed code body) after = after ≡ before

-- What a call leaves, by its outcome: if it raised or replayed a stored response, the database as it
-- was; if it returned a response of its own, the acceptance of an offer that could be accepted.
abbrev pub IsAcceptedFrom :
    (offer_id user now : ℕ) (before : Db) → Result Outcome → (after : Db) → Type 0
IsAcceptedFrom offer_id user now before =
    IsOutcome (λ after. after ≡ before) (IsLeft offer_id user now before)

module _ (env : Env) (serial : IsSerial env) (offer_id user now : ℕ) (d₀ : Db) where
  abbrev IsUntouched : Db → Type 0
  IsUntouched after = after ≡ d₀

  details-Same :
      (id : ℕ) (s : Session)
      → IsUntouched s.base
      → Ensures IsUntouched (λ _ d. d ≡ s.db) (Trades.get_for_participant id user env s)
  unfolding Trades.get_for_participant
  details-Same id s i = fetch-Ensures _ _ _ s i λ row _. fetch_last-Ensures env _ _ s i λ _ _. refl

  -- The acceptance is what the transaction sees, and then what is committed.
  conclude-IsLeft :
      (claim : Claim) (code : ℕ) (body : Response) (s : Session)
      → IsUntouched s.base
      → IsAcceptance offer_id user now d₀ s.db
      → Ends IsUntouched (IsLeft offer_id user now d₀) (conclude claim code body now env s)
  unfolding conclude
  conclude-IsLeft claim code body s i a =
      Ends-then (complete_idempotency claim code body now) _ s
        (complete-Same env claim code body now s i)
        λ s₁ i₁ same. commit-Ends env _ s₁ (moved s₁.db same.2)
    where
      moved : (d : Db) → d.trades ≡ s.db.trades → IsAcceptance offer_id user now d₀ d
      moved d e = record {
        request = a.request;
        offer = a.offer;
        corridor = a.corridor;
        trade_id = a.trade_id;
        allowed = a.allowed;
        contract = e ∙ a.contract;
      }

  accept_offer_claimed-IsLeft :
      (claim : Claim) (s : Session)
      → IsUntouched s.base
      → SameMarket d₀ s.db
      → Ends IsUntouched
          (IsLeft offer_id user now d₀)
          (accept_offer_claimed offer_id user now claim env s)
  unfolding accept_offer_claimed Offers.get Requests.get Offers.list_for_request
  accept_offer_claimed-IsLeft claim s i same = fetch-Ends _ _ _ s i λ initial_offer _.
      fetch-Ends _ _ _ s i λ initial_request _. raise_if-Ends _ _ _ s i λ by_creator.
        reads-Ends _ _ s (
          raise_if-Ends _ _ _ s i λ _.
            Ends-bind (lock_users_in_order _) _ s (lock_users-Same env serial _ s i)
              λ users s₁ i₁ e₁.
                Ends-bind (Requests.get_for_update initial_request.id) _ s₁
                  (lock-IsRequestRow env serial initial_request.id s₁ i₁)
                  λ request s₂ i₂ (e₂, rid, row). raise_if-Ends _ _ _ s₂ i₂ λ unchanged.
                    reads-Ends _ _ s₂ (
                      raise_if-Ends _ _ _ s₂ i₂ λ _.
                        Ends-bind (lock_offers request.id _ _) _ s₂
                          (lock_offers-Ensures env serial request.id _ s₂ i₂)
                          λ bs s₃ i₃ (e₃, rows, listed). fetch-Ends _ _ _ s₃ i₃ λ offer found.
                            Ends-then (check_acceptable user now users request offer) _ s₃
                              (check_acceptable-Ensures env user now users request offer s₃ i₃)
                              λ s₄ i₄ (e₄, on_board, request_live, active, offer_live).
                                Ends-bind (corridor_for_trade request) _ s₄
                                  (corridor-Ensures env request s₄ i₄)
                                  λ corridor s₅ i₅ (e₅, corridor_row, corridor_active).
                                    let offer_row : IsOfferRow offer s₂.db
                                        × (offer.request_id ≡ request.id) =
                                      find-All (λ o. o.id == offer_id)
                                        (λ b. IsOfferRow b s₂.db × (b.request_id ≡ request.id)) bs
                                        rows found in
                                    let start : SameMarket d₀ s₂.db =
                                      subst (SameMarket d₀) (sym (e₂ ∙ e₁)) same in
                                    let trades_kept : s₅.db.trades ≡ d₀.trades =
                                      ap (λ (d : Db). d.trades) (e₅ ∙ e₄ ∙ e₃) ∙ start.2 in
                                    Ends-bind (lock_terms now request offer bs corridor) _ s₅
                                      (lock_terms-Ensures env now request offer bs corridor s₅ i₅)
                                      λ trade s₆ i₆ e₆.
                                        Ends-bind (Trades.get_for_participant trade.id user) _ s₆
                                          (details-Same trade.id s₆ i₆)
                                          λ details s₇ i₇ e₇.
                                            conclude-IsLeft claim _ _ s₇ i₇ (record {
                                              request = request;
                                              offer = offer;
                                              corridor = corridor;
                                              trade_id = env.uuid s₅.draws;
                                              allowed = record {
                                                the_offer =
                                                    ==→eq offer.id offer_id (
                                                      find-passes (λ o. o.id == offer_id) bs found);
                                                offer_row = rw start.1 at offer_row.0;
                                                request_row =
                                                    rw (subst (SameMarket d₀) (sym e₁) same).0 at
                                                      row;
                                                on_request = offer_row.1;
                                                by_creator = ground (arith, by_creator, unchanged);
                                                on_board = on_board;
                                                request_live = request_live;
                                                active = active;
                                                offer_live = offer_live;
                                                corridor_row =
                                                    rw
                                                      (ap (λ (d : Db). d.corridors) (e₄ ∙ e₃)
                                                        ∙ start.5)
                                                      at corridor_row;
                                                corridor_active = corridor_active;
                                              };
                                              contract =
                                                  ap (λ (d : Db). d.trades) e₇
                                                  ∙ rw trades_kept at e₆;
                                            })))

  accept_after-IsLeft :
      (claim : Claim) (s : Session)
      → IsUntouched s.base
      → SameMarket d₀ s.db
      → Ends IsUntouched
          (IsLeft offer_id user now d₀)
          (unless_replay claim (accept_offer_claimed offer_id user now) env s)
  unfolding unless_replay
  accept_after-IsLeft (replay code body) s i same = pure-Ends env _ s i
  accept_after-IsLeft unkeyed s i same = accept_offer_claimed-IsLeft unkeyed s i same
  accept_after-IsLeft (claimed r) s i same = accept_offer_claimed-IsLeft (claimed r) s i same

  accept_bracket-IsLeft :
      (q : Option IdempotencyRequest) (s : Session)
      → IsUntouched s.base
      → s.db ≡ d₀
      → Ends IsUntouched
          (IsLeft offer_id user now d₀)
          (with_claim q now (accept_offer_claimed offer_id user now) env s)
  unfolding with_claim
  accept_bracket-IsLeft q s i e =
      Ends-bind (claim_idempotency q now) _ s (claim_idempotency-Same env serial q now s i)
        λ claim s₁ i₁ same. accept_after-IsLeft claim s₁ i₁ (subst (λ d. SameMarket d s₁.db) e same)

-- What `accept_offer` leaves, when transactions run one after the other. If it raises or replays a
-- stored response, nothing is committed. If it returns a response of its own, exactly one trade is
-- added, on the terms of the offer and of its request, and before that both were open and not
-- expired, the corridor of the request's two currencies was active, and the user was the creator of
-- the request.
pub accept_offer-IsAcceptedFrom :
    (env : Env)
    → IsSerial env
    → (offer_id user : ℕ) (q : Option IdempotencyRequest) (d : Db)
    → IsAcceptedFrom offer_id user
        (env.clock 0)
        d
        (transact (accept_offer offer_id user q) env d).0
        (transact (accept_offer offer_id user q) env d).1
unfolding accept_offer
accept_offer-IsAcceptedFrom env serial offer_id user q d =
    transact-Ends (λ after. after ≡ d) (IsLeft offer_id user (env.clock 0) d) _ env d
      (utc_now-Ends _ _
        (accept_bracket-IsLeft env serial offer_id user (env.clock 0) d q _ refl refl))
