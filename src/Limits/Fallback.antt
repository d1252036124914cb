-- ===== src/Limits/Fallback.antt =====
-- The two implementations of `consume`.
use escrow_fx_marketplace.Common.{
  ◌+◌, ◌≡◌, refl, ap, subst, ◌∙◌, Bool, true, ◌&&◌, Option, none, some, List, [], ◌∷◌, All, find,
  any, not, false, ◌==◌, ==→eq, Bool-cases, inl, inr, arith,
}
use escrow_fx_marketplace.Domain.Errors.{Result, ok, integrity_error}
use escrow_fx_marketplace.Store.Db.{Db, RateLimitBucket}
use escrow_fx_marketplace.Store.Action.{
  Env, Session, ◌>>=◌, ◌>>◌, pure, reads, write, write_if, uuid4, wait,
}
use escrow_fx_marketplace.Store.Ensures.{IsSerial}
use escrow_fx_marketplace.Store.Table.{update_where}
use escrow_fx_marketplace.Store.RateLimits.{
  Hit, same_bucket, find_bucket, conflict_update, loaded_update, consume, consume_fallback, upsert,
  save_loaded, lock_bucket, fresh_bucket, bucket_id_is_free, bucket_is_new, insert_bucket,
}
use text.Mathlib.Text.{◌==◌ as str_eq}
use text.Mathlib.TextEquality.{eq_iff}

abbrev or_row {ℓ} : {A : Type ℓ} → Option A → A → A
or_row none a = a
or_row (some x) a = x

-- Two rows have one identifier exactly if they have one policy and key.
abbrev pub IsSoleKey : List RateLimitBucket → RateLimitBucket → Type 0
IsSoleKey rows x =
    All (λ y. (y.id == x.id) ≡ (str_eq y.policy_name x.policy_name && str_eq y.key_hash x.key_hash))
      rows

abbrev pub IsKeyed : List RateLimitBucket → Type 0
IsKeyed rows = All (IsSoleKey rows) rows

All-both {ℓ κ} :
    {A : Type 0} (P : A → Type ℓ) (Q : A → Type κ) (xs : List A)
    → All P xs
    → All Q xs
    → All (λ x. P x × Q x) xs
All-both P Q [] h k = tt
All-both P Q (x ∷ xs) h k = ((h.0, k.0), All-both P Q xs h.1 k.1)

-- The bucket of a window expires when the window ends.
abbrev pub IsTimely : Hit → RateLimitBucket → Type 0
IsTimely h b =
    same_bucket h b ≡ true → b.window_started_at ≡ h.window_started_at → b.expires_at ≡ h.expires_at

conflict_update-eq-loaded_update :
    (h : Hit) (b : RateLimitBucket)
    → (b.window_started_at ≡ h.window_started_at → b.expires_at ≡ h.expires_at)
    → conflict_update h b ≡ loaded_update h b
unfolding conflict_update loaded_update
conflict_update-eq-loaded_update h b e =
    ground (arith, ==→eq b.window_started_at h.window_started_at, e)

module _ (h : Hit) (b : RateLimitBucket) where
  same_bucket-key :
      (x : RateLimitBucket)
      → same_bucket h b ≡ true
      → (x.id == b.id) ≡ (str_eq x.policy_name b.policy_name && str_eq x.key_hash b.key_hash)
      → (x.id == b.id) ≡ same_bucket h x
  same_bucket-key x found keyed =
      keyed
      ∙ ap (λ s. str_eq x.policy_name s && str_eq x.key_hash b.key_hash)
          ((eq_iff b.policy_name h.policy_name).0 (ground (arith, found)))
      ∙ ap (λ s. str_eq x.policy_name h.policy_name && str_eq x.key_hash s)
          ((eq_iff b.key_hash h.key_hash).0 (ground (arith, found)))

  -- The statement's condition and the row's primary key change the same rows in the same way.
  update_where-agree :
      same_bucket h b ≡ true
      → (rows : List RateLimitBucket) → IsSoleKey rows b
      → All (IsTimely h) rows
      → update_where (same_bucket h) (conflict_update h) rows
        ≡ update_where (λ x. x.id == b.id) (loaded_update h) rows
  update_where-agree found [] keyed timely = refl
  update_where-agree found (x ∷ rows) keyed timely = elim (Bool-cases (same_bucket h x)) [
    | inl hit ↦
        rw
          (
            same_bucket-key x found keyed.0,
            hit,
            conflict_update-eq-loaded_update h x (timely.0 hit),
            update_where-agree found rows keyed.1 timely.1,
          )
          refl
    | inr miss ↦
        rw (same_bucket-key x found keyed.0, miss, update_where-agree found rows keyed.1 timely.1)
          refl
  ]

-- What a search finds passes the test, and what holds of every row holds of it.
find-All {ℓ} :
    {A : Type 0} (P : A → Type ℓ) (test : A → Bool) (xs : List A) (a : A)
    → find test xs ≡ some a
    → All P xs
    → (test a ≡ true) × P a
find-All P test [] a e h = cc
find-All P test (x ∷ xs) a e h = elim (Bool-cases (test x)) [
  | inl hit ↦
      let same : x ≡ a = ap (λ o. or_row o a) (rw hit at e) in
      (subst (λ z. test z ≡ true) same hit, subst P same h.0)
  | inr miss ↦ find-All P test xs a (rw miss at e) h.1
]

-- The same result, the same view and the same committed state.
abbrev pub SameEnd : {A : Type 0} → Result A × Session → Result A × Session → Type 0
SameEnd r q = (r.0 ≡ q.0) × (r.1.db ≡ q.1.db) × (r.1.base ≡ q.1.base)

find-none : {A : Type 0} (test : A → Bool) (xs : List A) → find test xs ≡ none → any test xs ≡ false
find-none test [] e = refl
find-none test (x ∷ xs) e = elim (Bool-cases (test x)) [
  | inl hit ↦ cc (hit, e)
  | inr miss ↦ rw miss (find-none test xs (rw miss at e))
]

module _ (h : Hit) (env : Env) (serial : IsSerial env) (s : Session) where
  abbrev inserted : (RateLimitBucket → Hit → Db → Bool) → Result RateLimitBucket × Session
  inserted allowed =
      let b = fresh_bucket (env.uuid s.draws) h in
      (write_if (allowed b h) integrity_error (insert_bucket b) >> pure b) env
        (record s { draws = s.draws + 1; waits = s.waits + 1 })

  save_loaded_step : save_loaded h none env s ≡ inserted bucket_is_new
  unfolding save_loaded ◌>>=◌ ◌>>◌ uuid4 wait
  save_loaded_step = rw (serial s.waits s.db, serial s.waits s.base) refl

  -- Where no row has the key, the constraint on it holds.
  inserted-agree :
      find_bucket h s.db ≡ none → inserted (λ b _. bucket_id_is_free b) ≡ inserted bucket_is_new
  unfolding ◌>>=◌ ◌>>◌ write_if
  inserted-agree e =
      let b = fresh_bucket (env.uuid s.draws) h in
      ap
        (λ free.
          (write_if (λ _. free) integrity_error (insert_bucket b) >> pure b) env
            (record s { draws = s.draws + 1; waits = s.waits + 1 }))
        (no_key (bucket_id_is_free b s.db) (any (same_bucket h) s.db.buckets)
          (find-none (same_bucket h) s.db.buckets e))
    where
      no_key : (free taken : Bool) → taken ≡ false → free ≡ (free && not taken)
      no_key free taken e = ground (arith, e)

  -- The first request of a key: both insert the bucket, or both raise.
  insert-agree :
      find_bucket h s.db ≡ none
      → SameEnd
          (upsert
            (env.uuid s.draws)
            h
            none
            env
            (record s { draws = s.draws + 1; waits = s.waits + 1 }))
          (save_loaded h none env s)
  unfolding upsert
  insert-agree e = rw (save_loaded_step) (
      subst (λ r. SameEnd (inserted (λ b _. bucket_id_is_free b)) r) (inserted-agree e)
        (refl, refl, refl))

  update-agree :
      (b : RateLimitBucket)
      → find_bucket h s.db ≡ some b
      → IsKeyed s.db.buckets
      → All (IsTimely h) s.db.buckets
      → SameEnd
          (upsert
            (env.uuid s.draws)
            h
            (some b)
            env
            (record s { draws = s.draws + 1; waits = s.waits + 1 }))
          (save_loaded h (some b) env (record s { waits = s.waits + 1 }))
  unfolding upsert save_loaded ◌>>=◌ ◌>>◌ write pure
  update-agree b e keyed timely =
      let (found, (key, on_time)) =
        find-All (λ x. IsSoleKey s.db.buckets x × IsTimely h x) (same_bucket h) s.db.buckets b e
          (All-both (IsSoleKey s.db.buckets) (IsTimely h) s.db.buckets keyed timely) in
      (
        ap ok (conflict_update-eq-loaded_update h b (on_time found)),
        ap (λ rows. record (s.db) { buckets = rows })
            (update_where-agree h b found s.db.buckets key timely),
        refl,
      )

  consume_step :
      (o : Option RateLimitBucket)
      → find_bucket h s.db ≡ o
      → consume h env s
        ≡ upsert (env.uuid s.draws) h o env (record s { draws = s.draws + 1; waits = s.waits + 1 })
  unfolding consume ◌>>=◌ ◌>>◌ uuid4 wait reads
  consume_step o e = rw (serial s.waits s.db, serial s.waits s.base, e) refl

-- When transactions run one after the other, and where identifiers and keys pick the same rows and
-- the buckets of one window expire together, the upsert and the row lock with its flush return the
-- same bucket or the same error, and leave the same tables.
pub consume-eq-fallback :
    (h : Hit) (env : Env)
    → IsSerial env
    → (s : Session) → IsKeyed s.db.buckets
    → All (IsTimely h) s.db.buckets
    → SameEnd (consume h env s) (consume_fallback h env s)
unfolding consume_fallback lock_bucket ◌>>=◌ ◌>>◌ reads wait pure
consume-eq-fallback h env serial s keyed timely = by_row (find_bucket h s.db) refl
  where
    by_row :
        (o : Option RateLimitBucket)
        → find_bucket h s.db ≡ o
        → SameEnd (consume h env s) (consume_fallback h env s)
    by_row none e = rw (consume_step h env serial s none e, e) (insert-agree h env serial s e)
    by_row (some b) e =
        rw
          (consume_step h env serial s (some b) e, e, serial s.waits s.db, serial s.waits s.base, e)
          (update-agree h env serial s b e keyed timely)
