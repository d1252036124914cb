-- ===== src/Store/Action.antt =====
-- A step of a transaction, and the transaction around it. Statements run in READ COMMITTED:
-- between two statements the committed state may have moved. What other transactions commit is
-- the environment's `others`, which acts where a statement waits for a row lock.
use escrow_fx_marketplace.Common.{ℕ, ◌+◌, Bool, true, false, Option, none, some, List, [], ◌∷◌}
use escrow_fx_marketplace.Domain.Errors.{AppError, Result, ok, err}
use escrow_fx_marketplace.Store.Db.{Db}

-- The readings of the clock, the draws of `uuid4`, and the effect of the other transactions that
-- commit during the n-th wait for a lock.
pub record Env : Type 0 where
  pub clock : ℕ → ℕ
  pub uuid : ℕ → ℕ
  pub others : ℕ → Db → Db

-- `db` is what this transaction reads, its own writes included; `base` is what is committed.
pub record Session : Type 0 where
  pub db : Db
  pub base : Db
  pub ticks : ℕ
  pub draws : ℕ
  pub waits : ℕ

abbrev pub Action : Type 0 → Type 0
Action A = Env → Session → Result A × Session

module _ {A B : Type 0} where
  abbrev continue : Result A → (A → Action B) → Action B
  continue (ok a) f env s = f a env s
  continue (err e) f env s = (err e, s)

  infixl 5 ◌>>=◌ ◌>>◌
  unfoldable pub ◌>>=◌ : Action A → (A → Action B) → Action B
  ◌>>=◌ m f env s = let (r, s') = m env s in continue r f env s'

  unfoldable pub ◌>>◌ : Action A → Action B → Action B
  unfolding ◌>>=◌
  ◌>>◌ m n = m >>= λ _. n

module _ {A : Type 0} where
  unfoldable pub pure : A → Action A
  pure a env s = (ok a, s)

  unfoldable pub raise : AppError → Action A
  raise e env s = (err e, s)

  unfoldable pub lift : Result A → Action A
  lift r env s = (r, s)

  -- A read of the transaction's view.
  unfoldable pub reads : (Db → A) → Action A
  reads f env s = (ok (f s.db), s)

  -- A read that raises where there is no row.
  unfoldable pub fetch : (Db → Option A) → AppError → Action A
  fetch f e env s = (elim (f s.db) [ none ↦ err e | some a ↦ ok a ], s)

-- `if test: raise e`
unfoldable pub raise_if : Bool → AppError → Action (Unit {0})
raise_if test e env s = (elim test [ true ↦ err e | false ↦ ok tt ], s)

-- A flush: the constraint's test, and the write.
unfoldable pub write_if : (Db → Bool) → AppError → (Db → Db) → Action (Unit {0})
write_if allowed e f env s = elim (allowed s.db) [
  | true ↦ (ok tt, record s { db = f s.db })
  | false ↦ (err e, s)
]

unfoldable pub write : (Db → Db) → Action (Unit {0})
write f env s = (ok tt, record s { db = f s.db })

unfoldable pub utc_now : Action ℕ
utc_now env s = (ok (env.clock s.ticks), record s { ticks = s.ticks + 1 })

unfoldable pub uuid4 : Action ℕ
uuid4 env s = (ok (env.uuid s.draws), record s { draws = s.draws + 1 })

-- A statement that waits for a row lock.
unfoldable pub wait : Action (Unit {0})
wait env s = (
  ok tt,
  record s { db = env.others s.waits s.db; base = env.others s.waits s.base; waits = s.waits + 1 },
)

-- `uow.commit()`
unfoldable pub commit : Action (Unit {0})
commit env s = (ok tt, record s { base = s.db })

-- `for x in xs: body(x)`
module _ {A : Type 0} where
  unfoldable pub for_each : List A → (A → Action (Unit {0})) → Action (Unit {0})
  unfolding pure ◌>>◌
  for_each [] body = pure tt
  for_each (x ∷ xs) body = body x >> for_each xs body

  unfoldable pub when : Bool → Action A → A → Action A
  unfolding pure
  when test m a = elim test [ true ↦ m | false ↦ pure a ]

module _ {A B : Type 0} where
  -- `[body(x) for x in xs]`
  unfoldable pub collect : List A → (A → Action B) → Action (List B)
  unfolding pure ◌>>=◌
  collect [] body = pure []
  collect (x ∷ xs) body = body x >>= λ b. collect xs body >>= λ bs. pure (b ∷ bs)

abbrev pub begin : Db → Session
begin d = record { db = d; base = d; ticks = 0; draws = 0; waits = 0 }

-- `async with uow_factory() as uow: ...`: what is not committed at the end is rolled back.
unfoldable pub transact : {A : Type 0} → Action A → Env → Db → Result A × Db
transact m env d = let (r, s) = m env (begin d) in (r, s.base)
