-- ===== src/Market/Guards.antt =====
-- What a mutation requires of the state in which it commits: the shared part.
use escrow_fx_marketplace.Common.{ℕ, ◌≡◌, subst, Option, ◌⊎◌, inr}
use escrow_fx_marketplace.Domain.Errors.{Result, ok, err}
use escrow_fx_marketplace.Store.Db.{Db}
use escrow_fx_marketplace.Store.Action.{Env, Session, Action}
use escrow_fx_marketplace.Store.Ensures.{
  Ensures, returned, raised, IsSerial, Ensures-bind, pure-Ensures,
}
use escrow_fx_marketplace.Store.Idempotency.{
  IdempotencyRequest, Claim, unkeyed, claimed, replay, claim_idempotency,
}
use escrow_fx_marketplace.Service.Outcome.{Outcome, with_claim, unless_replay}
use escrow_fx_marketplace.Market.Frame.{SameMarket, claim_idempotency-Same}

-- Nothing has been committed, or `P` holds.
abbrev pub IsGuarded : (P : Type 0) (before after : Db) → Type 0
IsGuarded P before after = (after ≡ before) ⊎ P

-- Behind its guards an action may commit what it likes.
pub Ensures-IsGuarded :
    {A : Type 0} {P : Type 0} {before : Db} (r : Result A × Session)
    → P
    → Ensures (IsGuarded P before) (λ _ _. Unit {0}) r
Ensures-IsGuarded (ok a, s) p = returned (inr p) tt
Ensures-IsGuarded (err e, s) p = raised (inr p)

module _ (env : Env) (serial : IsSerial env) (P : Type 0) (d : Db) (now : ℕ)
    (rest : Claim → Action Outcome)
    (guarded : (claim : Claim) (s : Session)
      → IsGuarded P d s.base
      → SameMarket d s.db
      → Ensures (IsGuarded P d) (λ _ _. Unit {0}) (rest claim env s)) where
  unless_replay-IsGuarded :
      (claim : Claim) (s : Session)
      → IsGuarded P d s.base
      → SameMarket d s.db
      → Ensures (IsGuarded P d) (λ _ _. Unit {0}) (unless_replay claim rest env s)
  unfolding unless_replay
  unless_replay-IsGuarded (replay code body) s i same = pure-Ensures env _ s i tt
  unless_replay-IsGuarded unkeyed s i same = guarded unkeyed s i same
  unless_replay-IsGuarded (claimed r) s i same = guarded (claimed r) s i same

  -- The idempotency bracket commits nothing by itself.
  pub with_claim-IsGuarded :
      (q : Option IdempotencyRequest) (s : Session)
      → IsGuarded P d s.base
      → s.db ≡ d
      → Ensures (IsGuarded P d) (λ _ _. Unit {0}) (with_claim q now rest env s)
  unfolding with_claim
  with_claim-IsGuarded q s i e =
      Ensures-bind (claim_idempotency q now) _ s (claim_idempotency-Same env serial q now s i)
        λ claim s₁ i₁ same.
          unless_replay-IsGuarded claim s₁ i₁ (subst (λ d. SameMarket d s₁.db) e same)
