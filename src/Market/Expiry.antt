-- ===== src/Market/Expiry.antt =====
-- `expire_due_items`: what it commits.
use escrow_fx_marketplace.Common.{ℕ, ◌≡◌, refl, sym, subst, ◌∙◌, ap, List}
use escrow_fx_marketplace.Store.Db.{Db}
use escrow_fx_marketplace.Store.Action.{Env, Session, Action, for_each, transact}
use escrow_fx_marketplace.Store.Ensures.{
  Ensures, IsSerial, wait-Ensures, Ensures-weaken, for_each-Ensures, collect-Ensures,
  fetch_last-Ensures, reads-Ensures, write-Ensures, pure-Ensures, IsOutcome, Ends-bind, Ends-then,
  utc_now-Ends, commit-Ends, transact-Ends,
}
use escrow_fx_marketplace.Domain.Errors.{Result, ok, err}
use escrow_fx_marketplace.Service.Expiry.{
  MarketplaceExpiryResult, expire_due_items, announce_expired_request, announce_expired_offer,
  announce_reopened, announce_cancelled,
}
use escrow_fx_marketplace.Store.Requests
use escrow_fx_marketplace.Store.Offers
use escrow_fx_marketplace.Store.Trades
use escrow_fx_marketplace.Store.Outbox.{publish}
use escrow_fx_marketplace.Market.Invariant.{IsConsistent}
use escrow_fx_marketplace.Market.Frame.{
  SameMarket, SameMarket-trans, SameMarket-consistent, publish-Same,
}
use escrow_fx_marketplace.Market.Sweep.{
  sweep_requests, sweep_offers, sweep_pending, sweep_trades, sweep, sweep-IsConsistent,
}
use escrow_fx_marketplace.Market.Swept.{NothingDue, sweep-NothingDue}

-- What a run leaves, by its outcome: if it raised, the database as it was; if it returned, what the
-- four writes make of it, consistent and with nothing due.
abbrev pub IsSweptFrom :
    (now : ℕ) (before : Db) → Result MarketplaceExpiryResult → (after : Db) → Type 0
IsSweptFrom now before =
    IsOutcome (λ after. after ≡ before)
      (λ _ after. IsConsistent after × NothingDue now after × SameMarket (sweep now before) after)

module _ {I : Db → Type 0} (env : Env) where
  announced :
      {A : Type 0} (before : Db) (announce : A → Action (Unit {0}))
      → ((x : A) (s : Session) → I s.base → Ensures I (λ _ d. SameMarket s.db d) (announce x env s))
      → (xs : List A) (s : Session) → I s.base
      → SameMarket before s.db
      → Ensures I (λ _ d. SameMarket before d) (for_each xs announce env s)
  announced before announce quiet xs s i same =
      for_each-Ensures (SameMarket before) announce
        (λ x s i p. Ensures-weaken (quiet x s i) λ _ d q. SameMarket-trans before s.db d p q) xs s i
        same

module _ {I : Db → Type 0} (env : Env) (serial : IsSerial env) where
  expired_requests :
      (now : ℕ) (s : Session)
      → I s.base
      → Ensures I (λ _ d. d ≡ sweep_requests now s.db) (Requests.expire_due now env s)
  unfolding Requests.expire_due
  expired_requests now s i =
      wait-Ensures serial _ s
        (reads-Ensures _ _ _ (write-Ensures _ _ _ (pure-Ensures env _ _ i refl)))

  expired_offers :
      (now : ℕ) (s : Session)
      → I s.base
      → Ensures I (λ _ d. d ≡ sweep_offers now s.db) (Offers.expire_due now env s)
  unfolding Offers.expire_due
  expired_offers now s i =
      wait-Ensures serial _ s
        (reads-Ensures _ _ _ (write-Ensures _ _ _ (pure-Ensures env _ _ i refl)))

  reopened_requests :
      (now : ℕ) (s : Session)
      → I s.base
      → Ensures I
          (λ _ d. d ≡ sweep_pending now s.db)
          (Requests.reopen_pending_without_active_offers now env s)
  unfolding Requests.reopen_pending_without_active_offers
  reopened_requests now s i =
      wait-Ensures serial _ s
        (reads-Ensures _ _ _ (write-Ensures _ _ _ (pure-Ensures env _ _ i refl)))

  cancelled_trades :
      (now : ℕ) (s : Session)
      → I s.base
      → Ensures I (λ _ d. d ≡ sweep_trades now s.db) (Trades.cancel_due_unfunded now env s)
  unfolding Trades.cancel_due_unfunded
  cancelled_trades now s i = wait-Ensures serial _ s (
      reads-Ensures _ _ _ (
        write-Ensures _ _ _ (
          Ensures-weaken
            (collect-Ensures (λ d. d ≡ sweep_trades now s.db) (λ _. Unit {0}) _
              (λ t s i e. fetch_last-Ensures env _ _ s i λ _ _. (tt, e)) _ _ i refl)
            λ _ d p. p.1)))

-- When transactions run one after the other, a run of the expiry job on a consistent marketplace that
-- raises commits nothing. One that returns
-- commits a consistent marketplace, in which nothing is due at the time that it read, and whose
-- requests, offers, trades and users are the sweep of those before.
pub expire_due_items-IsSweptFrom :
    (env : Env)
    → IsSerial env
    → (d : Db) → IsConsistent d
    → IsSweptFrom
        (env.clock 0)
        d
        (transact expire_due_items env d).0
        (transact expire_due_items env d).1
unfolding expire_due_items announce_expired_request announce_expired_offer announce_reopened
    announce_cancelled
expire_due_items-IsSweptFrom env serial d h =
    transact-Ends (λ after. after ≡ d)
      (λ _ after.
        IsConsistent after
        × NothingDue (env.clock 0) after
        × SameMarket (sweep (env.clock 0) d) after)
      expire_due_items env d
      (utc_now-Ends _ _ (
        Ends-bind (Requests.expire_due _) _ _ (expired_requests env serial _ _ refl) λ rs s₁ i₁ e₁.
          Ends-bind (Offers.expire_due _) _ s₁ (expired_offers env serial _ s₁ i₁) λ os s₂ i₂ e₂.
            Ends-bind (Requests.reopen_pending_without_active_offers _) _ s₂
              (reopened_requests env serial _ s₂ i₂)
              λ ps s₃ i₃ e₃.
                Ends-bind (Trades.cancel_due_unfunded _) _ s₃ (cancelled_trades env serial _ s₃ i₃)
                  λ ts s₄ i₄ e₄.
                    let swept : s₄.db ≡ sweep (env.clock 0) d =
                      e₄
                      ∙ ap (sweep_trades (env.clock 0)) (
                          e₃
                          ∙ ap (sweep_pending (env.clock 0))
                              (e₂ ∙ ap (sweep_offers (env.clock 0)) e₁)) in
                    Ends-then (for_each rs announce_expired_request) _ s₄
                      (announced env s₄.db _ (λ r s i. publish-Same env _ _ _ s i) rs s₄ i₄
                        (refl, refl, refl, refl, refl, refl))
                      λ s₅ i₅ p₅.
                        Ends-then (for_each os announce_expired_offer) _ s₅
                          (announced env s₄.db _ (λ r s i. publish-Same env _ _ _ s i) os s₅ i₅ p₅)
                          λ s₆ i₆ p₆.
                            Ends-then (for_each ps announce_reopened) _ s₆
                              (announced env s₄.db _ (λ r s i. publish-Same env _ _ _ s i) ps s₆ i₆
                                p₆)
                              λ s₇ i₇ p₇.
                                Ends-then (for_each ts announce_cancelled) _ s₇
                                  (announced env s₄.db _
                                    (λ t s i.
                                      announced env s.db _ (λ r s i. publish-Same env _ _ _ s i) _ s
                                        i (refl, refl, refl, refl, refl, refl))
                                    ts s₇ i₇ p₇)
                                  λ s₈ i₈ p₈.
                                    Ends-then (publish _ _ _) _ s₈ (publish-Same env _ _ _ s₈ i₈)
                                      λ s₉ i₉ p₉. commit-Ends env _ s₉ (
                                        committed s₄.db s₉.db swept
                                          (SameMarket-trans s₄.db s₈.db s₉.db p₈ p₉))))
  where
    committed :
        (d₄ d₉ : Db)
        → d₄ ≡ sweep (env.clock 0) d
        → SameMarket d₄ d₉
        → IsConsistent d₉ × NothingDue (env.clock 0) d₉ × SameMarket (sweep (env.clock 0) d) d₉
    committed d₄ d₉ e same =
        let same' : SameMarket (sweep (env.clock 0) d) d₉ = subst (λ x. SameMarket x d₉) e same in
        (
          SameMarket-consistent (sweep (env.clock 0) d) d₉ same'
              (sweep-IsConsistent (env.clock 0) d h),
          rw (same'.0, same'.1, same'.2) (sweep-NothingDue (env.clock 0) d),
          same',
        )

-- Whatever the outcome of a run, what is committed stays consistent.
pub expire_due_items-IsConsistent :
    (env : Env)
    → IsSerial env
    → (d : Db) → IsConsistent d
    → IsConsistent (transact expire_due_items env d).1
expire_due_items-IsConsistent env serial d h =
    left (transact expire_due_items env d).0 (transact expire_due_items env d).1
      (expire_due_items-IsSweptFrom env serial d h)
  where
    left :
        (r : Result MarketplaceExpiryResult) (after : Db)
        → IsSweptFrom (env.clock 0) d r after
        → IsConsistent after
    left (ok x) after swept = swept.0
    left (err e) after kept = subst IsConsistent (sym kept) h
