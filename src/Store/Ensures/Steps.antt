-- ===== src/Store/Ensures/Steps.antt =====
-- The rules for the other steps, and for the ends of blocks.
use escrow_fx_marketplace.Common.{
  ℕ, ◌+◌, ◌≡◌, refl, Bool, true, false, Option, none, some, List, [], ◌∷◌, All,
}
use escrow_fx_marketplace.Domain.Errors.{AppError, Result, ok, err}
use escrow_fx_marketplace.Store.Db.{Db}
use escrow_fx_marketplace.Store.Action.{
  Env, Session, Action, ◌>>=◌, ◌>>◌, pure, raise, lift, reads, fetch, raise_if, write_if, write,
  utc_now, uuid4, commit, when, collect,
}
use escrow_fx_marketplace.Store.Ensures.Core.{Ensures, Ensures-bind, returned, raised}

-- The steps that cannot raise.
module _ {A B : Type 0} {I : Db → Type 0} {env : Env} {Q : B → Db → Type 0} where
  pub reads-Ensures :
      (f : Db → A) (k : A → Action B) (s : Session)
      → Ensures I Q (k (f s.db) env s)
      → Ensures I Q ((reads f >>= k) env s)
  unfolding ◌>>=◌ reads
  reads-Ensures f k s h = h

  pub pure-bind-Ensures :
      (a : A) (k : A → Action B) (s : Session)
      → Ensures I Q (k a env s)
      → Ensures I Q ((pure a >>= k) env s)
  unfolding ◌>>=◌ pure
  pure-bind-Ensures a k s h = h

  pub lift-Ensures :
      (r : Result A) (k : A → Action B) (s : Session)
      → I s.base
      → ((a : A) → r ≡ ok a → Ensures I Q (k a env s))
      → Ensures I Q ((lift r >>= k) env s)
  unfolding ◌>>=◌ lift
  lift-Ensures (ok a) k s i h = h a refl
  lift-Ensures (err e) k s i h = raised i

module _ {B : Type 0} {I : Db → Type 0} {env : Env} {Q : B → Db → Type 0} where
  pub utc_now-Ensures :
      (k : ℕ → Action B) (s : Session)
      → Ensures I Q (k (env.clock s.ticks) env (record s { ticks = s.ticks + 1 }))
      → Ensures I Q ((utc_now >>= k) env s)
  unfolding ◌>>=◌ utc_now
  utc_now-Ensures k s h = h

  pub uuid4-Ensures :
      (k : ℕ → Action B) (s : Session)
      → Ensures I Q (k (env.uuid s.draws) env (record s { draws = s.draws + 1 }))
      → Ensures I Q ((uuid4 >>= k) env s)
  unfolding ◌>>=◌ uuid4
  uuid4-Ensures k s h = h

  pub write-Ensures :
      (f : Db → Db) (k : Action B) (s : Session)
      → Ensures I Q (k env (record s { db = f s.db }))
      → Ensures I Q ((write f >> k) env s)
  unfolding ◌>>◌ write
  write-Ensures f k s h = h

  -- A commit publishes the transaction's view, which must satisfy `I`.
  pub commit-Ensures :
      (k : Action B) (s : Session)
      → Ensures I Q (k env (record s { base = s.db }))
      → Ensures I Q ((commit >> k) env s)
  unfolding ◌>>◌ commit
  commit-Ensures k s h = h

module _ {A : Type 0} {I : Db → Type 0} (env : Env) {Q : A → Db → Type 0} where
  pub pure-Ensures : (a : A) (s : Session) → I s.base → Q a s.db → Ensures I Q (pure a env s)
  unfolding pure
  pure-Ensures a s i q = returned i q

  pub raise-Ensures : (e : AppError) (s : Session) → I s.base → Ensures I Q (raise e env s)
  unfolding raise
  raise-Ensures e s i = raised i

  pub fetch_last-Ensures :
      (f : Db → Option A) (e : AppError) (s : Session)
      → I s.base
      → ((a : A) → f s.db ≡ some a → Q a s.db)
      → Ensures I Q (fetch f e env s)
  unfolding fetch
  fetch_last-Ensures f e s i h = split (f s.db) h
    where
      split :
          (o : Option A) → ((a : A) → o ≡ some a → Q a s.db) → Ensures I Q (fetch (λ _. o) e env s)
      split none h = raised i
      split (some a) h = returned i (h a refl)

  pub lift_last-Ensures :
      (r : Result A) (s : Session)
      → I s.base
      → ((a : A) → r ≡ ok a → Q a s.db)
      → Ensures I Q (lift r env s)
  unfolding lift
  lift_last-Ensures (ok a) s i h = returned i (h a refl)
  lift_last-Ensures (err e) s i h = raised i

  pub when-Ensures :
      (test : Bool) (m : Action A) (a : A) (s : Session)
      → I s.base
      → (test ≡ true → Ensures I Q (m env s))
      → (test ≡ false → Q a s.db)
      → Ensures I Q (when test m a env s)
  unfolding when
  when-Ensures true m a s i h k = h refl
  when-Ensures false m a s i h k = returned i (k refl)

module _ {I : Db → Type 0} (env : Env) {Q : Unit {0} → Db → Type 0} where
  pub write_last-Ensures :
      (f : Db → Db) (s : Session) → I s.base → Q tt (f s.db) → Ensures I Q (write f env s)
  unfolding write
  write_last-Ensures f s i q = returned i q

  pub write_if_last-Ensures :
      (allowed : Db → Bool) (e : AppError) (f : Db → Db) (s : Session)
      → I s.base
      → (allowed s.db ≡ true → Q tt (f s.db))
      → Ensures I Q (write_if allowed e f env s)
  unfolding write_if
  write_if_last-Ensures allowed e f s i h = split (allowed s.db) h
    where
      split : (b : Bool) → (b ≡ true → Q tt (f s.db)) → Ensures I Q (write_if (λ _. b) e f env s)
      split true h = returned i (h refl)
      split false h = raised i

  pub raise_if_last-Ensures :
      (test : Bool) (e : AppError) (s : Session)
      → I s.base
      → (test ≡ false → Q tt s.db)
      → Ensures I Q (raise_if test e env s)
  unfolding raise_if
  raise_if_last-Ensures true e s i h = raised i
  raise_if_last-Ensures false e s i h = returned i (h refl)

module _ {A B : Type 0} {I : Db → Type 0} {env : Env} where
  -- A comprehension over actions keeps what each of them keeps, and collects what each returns.
  pub collect-Ensures :
      (P : Db → Type 0) (R : B → Type 0) (body : A → Action B)
      → ((x : A) (s : Session) → I s.base → P s.db → Ensures I (λ b d. R b × P d) (body x env s))
      → (xs : List A) (s : Session) → I s.base
      → P s.db
      → Ensures I (λ bs d. All R bs × P d) (collect xs body env s)
  unfolding collect
  collect-Ensures P R body step [] s i p = pure-Ensures env [] s i (tt, p)
  collect-Ensures P R body step (x ∷ xs) s i p =
      Ensures-bind (body x) (λ b. collect xs body >>= λ bs. pure (b ∷ bs)) s (step x s i p)
        λ b s i (r, p).
          Ensures-bind (collect xs body) (λ bs. pure (b ∷ bs)) s
            (collect-Ensures P R body step xs s i p)
            λ bs s i (rs, p). pure-Ensures env (b ∷ bs) s i ((r, rs), p)
