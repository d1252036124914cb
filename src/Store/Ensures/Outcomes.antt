-- ===== src/Store/Ensures/Outcomes.antt =====
-- A logic for whole transactions. `Ends I R` says of a run's end that the committed state satisfies
-- `I` if the run raised, and `R` of the value if it returned.
use escrow_fx_marketplace.Common.{ℕ, ◌+◌, ◌≡◌, refl, Bool, true, false, Option, none, some}
use escrow_fx_marketplace.Domain.Errors.{AppError, Result, ok, err}
use escrow_fx_marketplace.Store.Db.{Db}
use escrow_fx_marketplace.Store.Action.{
  Env, Session, Action, ◌>>=◌, ◌>>◌, pure, lift, reads, fetch, raise_if, utc_now, commit, transact,
  begin,
}
use escrow_fx_marketplace.Store.Ensures.Core.{Ensures, returned, raised}

pub data Ends {A : Type 0} (I : Db → Type 0) (R : A → Db → Type 0)
    : Result A × Session → Type 0 where
  ended : {a : A} {s : Session} → R a s.base → Ends I R (ok a, s)
  failed : {e : AppError} {s : Session} → I s.base → Ends I R (err e, s)

module _ {A B : Type 0} {I : Db → Type 0} {env : Env} {P : A → Db → Type 0}
    {R : B → Db → Type 0} where
  continue-Ends :
      (f : A → Action B) {r : Result A} {s : Session}
      → Ensures I P (r, s)
      → ((a : A) (s : Session) → I s.base → P a s.db → Ends I R (f a env s))
      → Ends I R ((lift r >>= f) env s)
  unfolding ◌>>=◌ lift
  continue-Ends f (returned {a = a} {s = s} i p) k = k a s i p
  continue-Ends f (raised i) k = failed i

  -- What ends a block runs from any state that satisfies what its first step ensures.
  pub Ends-bind :
      (m : Action A) (f : A → Action B) (s : Session)
      → Ensures I P (m env s)
      → ((a : A) (s : Session) → I s.base → P a s.db → Ends I R (f a env s))
      → Ends I R ((m >>= f) env s)
  unfolding ◌>>=◌ lift
  Ends-bind m f s h k = continue-Ends f h k

module _ {B : Type 0} {I : Db → Type 0} {env : Env} {R : B → Db → Type 0} where
  pub Ends-then :
      {P : Unit {0} → Db → Type 0} (m : Action (Unit {0})) (k : Action B) (s : Session)
      → Ensures I P (m env s)
      → ((s : Session) → I s.base → P tt s.db → Ends I R (k env s))
      → Ends I R ((m >> k) env s)
  unfolding ◌>>◌
  Ends-then m k s h c = Ends-bind m (λ _. k) s h (λ a s i p. c s i p)

  pub raise_if-Ends :
      (test : Bool) (e : AppError) (k : Action B) (s : Session)
      → I s.base
      → (test ≡ false → Ends I R (k env s))
      → Ends I R ((raise_if test e >> k) env s)
  unfolding ◌>>◌ raise_if ◌>>=◌
  raise_if-Ends true e k s i h = failed i
  raise_if-Ends false e k s i h = h refl

  pub utc_now-Ends :
      (k : ℕ → Action B) (s : Session)
      → Ends I R (k (env.clock s.ticks) env (record s { ticks = s.ticks + 1 }))
      → Ends I R ((utc_now >>= k) env s)
  unfolding ◌>>=◌ utc_now
  utc_now-Ends k s h = h

module _ {B : Type 0} {I : Db → Type 0} (env : Env) {R : B → Db → Type 0} where
  -- The end of a transaction that commits.
  pub commit-Ends : (b : B) (s : Session) → R b s.db → Ends I R ((commit >> pure b) env s)
  unfolding ◌>>◌ ◌>>=◌ commit pure
  commit-Ends b s r = ended r

  -- The end of one that does not.
  pub pure-Ends : (b : B) (s : Session) → R b s.base → Ends I R (pure b env s)
  unfolding pure
  pure-Ends b s r = ended r

module _ {A B : Type 0} {I : Db → Type 0} {env : Env} {R : B → Db → Type 0} where
  pub fetch-Ends :
      (f : Db → Option A) (e : AppError) (k : A → Action B) (s : Session)
      → I s.base
      → ((a : A) → f s.db ≡ some a → Ends I R (k a env s))
      → Ends I R ((fetch f e >>= k) env s)
  unfolding ◌>>=◌ fetch
  fetch-Ends f e k s i h = split (f s.db) h
    where
      split :
          (o : Option A)
          → ((a : A) → o ≡ some a → Ends I R (k a env s))
          → Ends I R ((fetch (λ _. o) e >>= k) env s)
      split none h = failed i
      split (some a) h = h a refl

  pub reads-Ends :
      (f : Db → A) (k : A → Action B) (s : Session)
      → Ends I R (k (f s.db) env s)
      → Ends I R ((reads f >>= k) env s)
  unfolding ◌>>=◌ reads
  reads-Ends f k s h = h

-- What a transaction leaves, by its outcome.
abbrev pub IsOutcome : {A : Type 0} (I : Db → Type 0) (R : A → Db → Type 0) → Result A → Db → Type 0
IsOutcome I R (ok a) d = R a d
IsOutcome I R (err e) d = I d

outcome :
    {A : Type 0} {I : Db → Type 0} {R : A → Db → Type 0} {r : Result A × Session}
    → Ends I R r
    → IsOutcome I R r.0 r.1.base
outcome (ended r) = r
outcome (failed i) = i

pub transact-Ends :
    {A : Type 0} (I : Db → Type 0) (R : A → Db → Type 0) (m : Action A) (env : Env) (d : Db)
    → Ends I R (m env (begin d))
    → IsOutcome I R (transact m env d).0 (transact m env d).1
unfolding transact
transact-Ends I R m env d h = outcome h
