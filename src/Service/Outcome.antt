-- ===== src/Service/Outcome.antt =====
-- What the mutations return, and the idempotency bracket that they share.
use escrow_fx_marketplace.Common.{ℕ, Option}
use escrow_fx_marketplace.Store.Db.{Response}
use escrow_fx_marketplace.Store.Action.{Action, ◌>>=◌, ◌>>◌, pure, commit}
use escrow_fx_marketplace.Store.Idempotency.{
  IdempotencyRequest, Claim, unkeyed, claimed, replay, claim_idempotency, complete_idempotency,
}

-- Details, or an `IdempotencyReplay`.
pub data Outcome : Type 0 where
  response : Response → Outcome
  replayed : ℕ → Response → Outcome

-- `if isinstance(claim, IdempotencyReplay): return claim`
unfoldable pub unless_replay : Claim → (Claim → Action Outcome) → Action Outcome
unless_replay (replay code body) rest = pure (replayed code body)
unless_replay unkeyed rest = rest unkeyed
unless_replay (claimed r) rest = rest (claimed r)

unfoldable pub with_claim :
    Option IdempotencyRequest → ℕ → (Claim → Action Outcome) → Action Outcome
unfolding unless_replay
with_claim idempotency now rest = do
  claim ← claim_idempotency idempotency now
  unless_replay claim rest

-- The end of each mutation: the response is stored in the claim and all is committed.
unfoldable pub conclude : Claim → ℕ → Response → ℕ → Action Outcome
conclude claim code body now = do
  complete_idempotency claim code body now
  commit
  pure (response body)
