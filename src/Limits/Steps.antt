-- ===== src/Limits/Steps.antt =====
-- What one `consume` does when transactions run one after the other, and loops of checks.
use escrow_fx_marketplace.Common.{
  ◌+◌, ◌≡◌, refl, ap, sym, Bool, true, none, some, List, [], ◌∷◌, ◌++◌, find, Bool-cases, inl, inr,
}
use escrow_fx_marketplace.Domain.Errors.{AppError, Result, ok, err, integrity_error}
use escrow_fx_marketplace.Store.Db.{Db, RateLimitBucket}
use escrow_fx_marketplace.Store.Action.{
  Env, Session, Action, ◌>>=◌, ◌>>◌, pure, reads, write, write_if, uuid4, wait, collect,
}
use escrow_fx_marketplace.Store.Ensures.{IsSerial}
use escrow_fx_marketplace.Store.Table.{update_where}
use escrow_fx_marketplace.Store.RateLimits.{
  Hit, same_bucket, find_bucket, fresh_bucket, bucket_id_is_free, insert_bucket, update_bucket,
  conflict_update, consume, upsert,
}
use mathlib.Core.Option.{some-injective, none-ne-some}

abbrev pub prepended : {B : Type 0} → B → Result (List B) → Result (List B)
prepended b (ok bs) = ok (b ∷ bs)
prepended b (err e) = err e

pub collect_step :
    {A B : Type 0} (body : A → Action B) (x : A) (xs : List A) (env : Env) (s t : Session) (b : B)
    → body x env s ≡ (ok b, t)
    → (collect (x ∷ xs) body env s).0 ≡ prepended b (collect xs body env t).0
unfolding collect ◌>>=◌ pure
collect_step {B = B} body x xs env s t b e = rw e (split (collect xs body env t))
  where
    split :
        (r : Result (List B) × Session)
        → (((λ (env : Env) (s : Session). r) >>= λ bs. pure (b ∷ bs)) env t).0 ≡ prepended b r.0
    split (ok bs, u) = refl
    split (err e, u) = refl

-- After a statement in which one identifier was drawn and one lock was waited for.
abbrev pub moved : Db → Session → Session
moved d s = record s { db = d; draws = s.draws + 1; waits = s.waits + 1 }

pub write_if_step :
    {B : Type 0} (allowed : Db → Bool) (e : AppError) (f : Db → Db) (k : Action B) (env : Env)
    (s : Session)
    → allowed s.db ≡ true
    → (write_if allowed e f >> k) env s ≡ k env (record s { db = f s.db })
unfolding ◌>>◌ ◌>>=◌ write_if
write_if_step allowed e f k env s free = rw (write_if, free) refl

module _ (env : Env) (serial : IsSerial env) (h : Hit) (s : Session) where
  pub consume_found :
      (b : RateLimitBucket)
      → find_bucket h s.db ≡ some b
      → consume h env s ≡ (
        ok (conflict_update h b),
        moved (update_bucket (same_bucket h) (conflict_update h) s.db) s,
      )
  unfolding consume upsert ◌>>=◌ ◌>>◌ uuid4 wait reads write pure
  consume_found b e = rw (serial s.waits s.db, serial s.waits s.base, e) refl

  pub consume_fresh :
      find_bucket h s.db ≡ none
      → bucket_id_is_free (fresh_bucket (env.uuid s.draws) h) s.db ≡ true
      → consume h env s ≡ (
        ok (fresh_bucket (env.uuid s.draws) h),
        moved (insert_bucket (fresh_bucket (env.uuid s.draws) h) s.db) s,
      )
  unfolding consume upsert ◌>>=◌ ◌>>◌ uuid4 wait reads pure
  consume_fresh e free =
      rw (serial s.waits s.db, serial s.waits s.base, e)
        (write_if_step (bucket_id_is_free (fresh_bucket (env.uuid s.draws) h)) integrity_error
          (insert_bucket (fresh_bucket (env.uuid s.draws) h))
          (pure (fresh_bucket (env.uuid s.draws) h)) env
          (record s { draws = s.draws + 1; waits = s.waits + 1 }) free)

pub find-update_where :
    {A : Type 0} (test : A → Bool) (f : A → A) (xs : List A) (a : A)
    → ((x : A) → test (f x) ≡ test x)
    → find test xs ≡ some a
    → find test (update_where test f xs) ≡ some (f a)
find-update_where test f [] a keeps e = cc
find-update_where test f (x ∷ xs) a keeps e = elim (Bool-cases (test x)) [
  | inl hit ↦ rw (hit, keeps x, hit) (ap some (ap f (some-injective x a (rw hit at e))))
  | inr miss ↦ rw (miss, miss) (find-update_where test f xs a keeps (rw miss at e))
]

pub find_last :
    {A : Type 0} (test : A → Bool) (xs : List A) (a : A)
    → find test xs ≡ none
    → test a ≡ true
    → find test (xs ++ a ∷ []) ≡ some a
find_last test [] a e hit = rw hit refl
find_last test (x ∷ xs) a e hit = elim (Bool-cases (test x)) [
  | inl found ↦ absurd (none-ne-some x (sym (rw found at e)))
  | inr miss ↦ rw miss (find_last test xs a (rw miss at e) hit)
]
