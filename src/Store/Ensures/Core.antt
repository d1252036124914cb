-- ===== src/Store/Ensures/Core.antt =====
-- The logic, and the rules for the steps that may raise.
use escrow_fx_marketplace.Common.{
  ℕ, ◌+◌, ◌≡◌, refl, Bool, true, false, Option, none, some, List, [], ◌∷◌,
}
use escrow_fx_marketplace.Domain.Errors.{AppError, Result, ok, err}
use escrow_fx_marketplace.Store.Db.{Db}
use escrow_fx_marketplace.Store.Action.{
  Env, Session, Action, ◌>>=◌, ◌>>◌, lift, fetch, raise_if, write_if, wait, for_each, transact,
  begin,
}

pub data Ensures {A : Type 0} (I : Db → Type 0) (Q : A → Db → Type 0)
    : Result A × Session → Type 0 where
  returned : {a : A} {s : Session} → I s.base → Q a s.db → Ensures I Q (ok a, s)
  raised : {e : AppError} {s : Session} → I s.base → Ensures I Q (err e, s)

-- The environment leaves the database alone: transactions run one after the other.
abbrev pub IsSerial : Env → Type 0
IsSerial env = (n : ℕ) (d : Db) → env.others n d ≡ d

module _ {A B : Type 0} {I : Db → Type 0} {env : Env} {P : A → Db → Type 0}
    {Q : B → Db → Type 0} where
  continue-Ensures :
      (f : A → Action B) {r : Result A} {s : Session}
      → Ensures I P (r, s)
      → ((a : A) (s : Session) → I s.base → P a s.db → Ensures I Q (f a env s))
      → Ensures I Q ((lift r >>= f) env s)
  unfolding ◌>>=◌ lift
  continue-Ensures f (returned {a = a} {s = s} i p) k = k a s i p
  continue-Ensures f (raised i) k = raised i

  -- The rest of a block runs from any state that satisfies what its first step ensures.
  pub Ensures-bind :
      (m : Action A) (f : A → Action B) (s : Session)
      → Ensures I P (m env s)
      → ((a : A) (s : Session) → I s.base → P a s.db → Ensures I Q (f a env s))
      → Ensures I Q ((m >>= f) env s)
  unfolding ◌>>=◌ lift
  Ensures-bind m f s h k = continue-Ensures f h k

module _ {B : Type 0} {I : Db → Type 0} {env : Env} {Q : B → Db → Type 0} where
  pub Ensures-then :
      {P : Unit {0} → Db → Type 0} (m : Action (Unit {0})) (k : Action B) (s : Session)
      → Ensures I P (m env s)
      → ((s : Session) → I s.base → P tt s.db → Ensures I Q (k env s))
      → Ensures I Q ((m >> k) env s)
  unfolding ◌>>◌
  Ensures-then m k s h c = Ensures-bind m (λ _. k) s h (λ a s i p. c s i p)

  -- The steps that change no state and may raise.
  pub raise_if-Ensures :
      (test : Bool) (e : AppError) (k : Action B) (s : Session)
      → I s.base
      → (test ≡ false → Ensures I Q (k env s))
      → Ensures I Q ((raise_if test e >> k) env s)
  unfolding ◌>>◌ raise_if
  raise_if-Ensures true e k s i h = raised i
  raise_if-Ensures false e k s i h = h refl

  pub write_if-Ensures :
      (allowed : Db → Bool) (e : AppError) (f : Db → Db) (k : Action B) (s : Session)
      → I s.base
      → (allowed s.db ≡ true → Ensures I Q (k env (record s { db = f s.db })))
      → Ensures I Q ((write_if allowed e f >> k) env s)
  unfolding ◌>>◌ write_if
  write_if-Ensures allowed e f k s i h = split (allowed s.db) h
    where
      split :
          (b : Bool)
          → (b ≡ true → Ensures I Q (k env (record s { db = f s.db })))
          → Ensures I Q ((write_if (λ _. b) e f >> k) env s)
      split true h = h refl
      split false h = raised i

  -- In a serial environment a wait is a step that does nothing.
  pub wait-Ensures :
      IsSerial env
      → (k : Action B) (s : Session) → Ensures I Q (k env (record s { waits = s.waits + 1 }))
      → Ensures I Q ((wait >> k) env s)
  unfolding ◌>>◌ wait
  wait-Ensures serial k s h = rw (serial s.waits s.db, serial s.waits s.base) h

module _ {A B : Type 0} {I : Db → Type 0} {env : Env} {Q : B → Db → Type 0} where
  pub fetch-Ensures :
      (f : Db → Option A) (e : AppError) (k : A → Action B) (s : Session)
      → I s.base
      → ((a : A) → f s.db ≡ some a → Ensures I Q (k a env s))
      → Ensures I Q ((fetch f e >>= k) env s)
  unfolding ◌>>=◌ fetch
  fetch-Ensures f e k s i h = split (f s.db) h
    where
      split :
          (o : Option A)
          → ((a : A) → o ≡ some a → Ensures I Q (k a env s))
          → Ensures I Q ((fetch (λ _. o) e >>= k) env s)
      split none h = raised i
      split (some a) h = h a refl

-- The post-condition may be weakened.
pub Ensures-weaken :
    {A : Type 0} {I : Db → Type 0} {P Q : A → Db → Type 0} {r : Result A × Session}
    → Ensures I P r
    → ((a : A) (d : Db) → P a d → Q a d)
    → Ensures I Q r
Ensures-weaken (returned {a = a} {s = s} i p) w = returned i (w a s.db p)
Ensures-weaken (raised i) w = raised i

-- A loop keeps what each of its rounds keeps.
pub for_each-Ensures :
    {A : Type 0} {I : Db → Type 0} {env : Env} (P : Db → Type 0) (body : A → Action (Unit {0}))
    → ((x : A) (s : Session) → I s.base → P s.db → Ensures I (λ _ d. P d) (body x env s))
    → (xs : List A) (s : Session) → I s.base
    → P s.db
    → Ensures I (λ _ d. P d) (for_each xs body env s)
unfolding for_each
for_each-Ensures P body step [] s i p = returned i p
for_each-Ensures P body step (x ∷ xs) s i p =
    Ensures-then (body x) (for_each xs body) s (step x s i p)
      λ s i p. for_each-Ensures P body step xs s i p

committed :
    {A : Type 0} {I : Db → Type 0} {Q : A → Db → Type 0} {r : Result A × Session}
    → Ensures I Q r
    → I r.1.base
committed (returned i p) = i
committed (raised i) = i

-- What holds of the committed state at every end of the body holds of it after the transaction.
pub transact-Ensures :
    {A : Type 0} {I : Db → Type 0} (Q : A → Db → Type 0) (m : Action A) (env : Env) (d : Db)
    → Ensures I Q (m env (begin d))
    → I (transact m env d).1
unfolding transact
transact-Ensures Q m env d h = committed h

-- What a run that returned ensures.
pub value-Ensures :
    {A : Type 0} {I : Db → Type 0} {Q : A → Db → Type 0} {a : A} {s : Session}
    → Ensures I Q (ok a, s)
    → Q a s.db
value-Ensures (returned i q) = q
