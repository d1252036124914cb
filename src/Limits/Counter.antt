-- ===== src/Limits/Counter.antt =====
-- The bucket as a counter of the requests in one window.
use escrow_fx_marketplace.Common.{
  ℕ, ◌+◌, ◌≡◌, refl, subst, sym, ◌∙◌, Bool, true, false, none, some, String, List, [], ◌∷◌, map,
  All, ltb, ◌==◌, ==-refl, inl, inr, ◌⊎◌, arith,
}
use escrow_fx_marketplace.Domain.Errors.{Result, ok, err}
use escrow_fx_marketplace.Store.Db.{Db, RateLimitBucket}
use escrow_fx_marketplace.Store.Action.{Env, Session, Action, ◌>>=◌, pure, collect}
use escrow_fx_marketplace.Store.Ensures.{IsSerial}
use escrow_fx_marketplace.Store.RateLimits.{
  Hit, min, same_bucket, find_bucket, fresh_bucket, bucket_id_is_free, insert_bucket, update_bucket,
  conflict_update, consume,
}
use escrow_fx_marketplace.Limits.Policies.{RateLimitRule, RateLimitPolicy, Dimension}
use escrow_fx_marketplace.Limits.Windows.{RateLimitStatus, window_start, window_end}
use escrow_fx_marketplace.Limits.Enforce.{check_rule, bucket_for, hit_of, status_of}
use text.Mathlib.TextPositions.{eq_refl}
use escrow_fx_marketplace.Limits.Steps.{
  prepended, moved, collect_step, find-update_where, find_last, consume_found, consume_fresh,
}

-- The abstract counter: of the requests after the first `used`, those beyond the limit.
abbrev pub over_limit : (limit used : ℕ) → List ℕ → List Bool
over_limit limit used [] = []
over_limit limit used (_ ∷ nows) = ltb limit (used + 1) ∷ over_limit limit (used + 1) nows

-- A run that returns statuses, of which just these are blocked.
abbrev pub Blocks : Result (List RateLimitStatus) → List Bool → Type 0
Blocks (ok statuses) flags = map RateLimitStatus.blocked statuses ≡ flags
Blocks (err e) flags = ⊥

Blocks-prepended :
    (status : RateLimitStatus) (r : Result (List RateLimitStatus)) (flag : Bool) (flags : List Bool)
    → status.blocked ≡ flag
    → Blocks r flags
    → Blocks (prepended status r) (flag ∷ flags)
Blocks-prepended status (ok statuses) flag flags e h = rw (e, h) refl
Blocks-prepended status (err e) flag flags p h = absurd h

module _ (key_hash : String → Dimension → String → String) (policy : RateLimitPolicy)
    (rule : RateLimitRule) (identity : String) (env : Env) (serial : IsSerial env) where
  abbrev pub hit : ℕ → Hit
  hit now = hit_of key_hash policy rule now identity

  abbrev pub check : ℕ → Action RateLimitStatus
  check now = check_rule key_hash policy false now rule identity

  check_step :
      (now : ℕ) (s t : Session) (b : RateLimitBucket)
      → consume (hit now) env s ≡ (ok b, t)
      → check_rule key_hash policy false now rule identity env s
        ≡ (ok (status_of rule (window_end now rule.window_seconds) b.request_count), t)
  unfolding check_rule bucket_for ◌>>=◌ pure
  check_step now s t b e = rw e refl

  found_after :
      (now later : ℕ) (d : Db) (b : RateLimitBucket)
      → find_bucket (hit later) d ≡ some b
      → find_bucket
          (hit later)
          (update_bucket (same_bucket (hit now)) (conflict_update (hit now)) d)
        ≡ some (conflict_update (hit now) b)
  unfolding hit_of conflict_update
  found_after now later d b found =
      find-update_where (same_bucket (hit later)) (conflict_update (hit now)) d.buckets b
        (λ x. refl) found

  count_next :
      (now used : ℕ) (b : RateLimitBucket)
      → b.window_started_at ≡ window_start now rule.window_seconds
      → b.request_count ≡ min used (rule.limit + 1)
      → (conflict_update (hit now) b).request_count ≡ min (used + 1) (rule.limit + 1)
  unfolding hit_of conflict_update
  count_next now used b same count = ground (arith, ==-refl b.window_started_at)

  blocked_next :
      (reset_at used count : ℕ)
      → count ≡ min used (rule.limit + 1)
      → (status_of rule reset_at count).blocked ≡ ltb rule.limit used
  unfolding status_of
  blocked_next reset_at used count e = ground arith

  starts_at :
      (now : ℕ) (b : RateLimitBucket)
      → (conflict_update (hit now) b).window_started_at ≡ window_start now rule.window_seconds
  unfolding hit_of conflict_update
  starts_at now b = refl

  none_left : (s : Session) → Blocks (collect [] check env s).0 []
  unfolding collect pure
  none_left s = refl

  -- The requests of a window that has counted `used` before them.
  counted :
      (start : ℕ) (nows : List ℕ) (used : ℕ) (s : Session) (b : RateLimitBucket)
      → ((now : ℕ) → find_bucket (hit now) s.db ≡ some b)
      → b.window_started_at ≡ start
      → b.request_count ≡ min used (rule.limit + 1)
      → All (λ now. window_start now rule.window_seconds ≡ start) nows
      → Blocks (collect nows check env s).0 (over_limit rule.limit used nows)
  counted start [] used s b found at_start count within = none_left s
  counted start (now ∷ nows) used s b found at_start count within =
      let b' = conflict_update (hit now) b in
      let t = moved (update_bucket (same_bucket (hit now)) (conflict_update (hit now)) s.db) s in
      subst (λ r. Blocks r (over_limit rule.limit used (now ∷ nows)))
        (sym (
          collect_step check now nows env s t _
            (check_step now s t b' (consume_found env serial (hit now) s b (found now)))))
        (Blocks-prepended _ _ _ _
          (blocked_next _ (used + 1) _ (count_next now used b (at_start ∙ sym within.0) count))
          (counted start nows (used + 1) t b' (λ later. found_after now later s.db b (found later))
            (starts_at now b ∙ within.0) (count_next now used b (at_start ∙ sym within.0) count)
            within.1))

  first :
      (now : ℕ) (nows : List ℕ) (s t : Session) (b : RateLimitBucket)
      → consume (hit now) env s ≡ (ok b, t)
      → ((later : ℕ) → find_bucket (hit later) t.db ≡ some b)
      → b.window_started_at ≡ window_start now rule.window_seconds
      → b.request_count ≡ 1
      → All
          (λ later. window_start later rule.window_seconds ≡ window_start now rule.window_seconds)
          nows
      → Blocks (collect (now ∷ nows) check env s).0 (over_limit rule.limit 0 (now ∷ nows))
  first now nows s t b e found at_start count within =
      subst (λ r. Blocks r (over_limit rule.limit 0 (now ∷ nows)))
        (sym (collect_step check now nows env s t _ (check_step now s t b e)))
        (Blocks-prepended _ _ _ _ (blocked_next _ 1 _ (ground (arith, count)))
          (counted _ nows 1 t b found at_start (ground (arith, count)) within))

  fresh_found :
      (now later : ℕ) (id : ℕ) (d : Db)
      → find_bucket (hit now) d ≡ none
      → find_bucket (hit later) (insert_bucket (fresh_bucket id (hit now)) d)
        ≡ some (fresh_bucket id (hit now))
  unfolding hit_of
  fresh_found now later id d absent =
      find_last (same_bucket (hit later)) d.buckets (fresh_bucket id (hit now)) absent
        (rw (eq_refl policy.name, eq_refl (key_hash policy.name rule.dimension identity)) refl)

  -- The rule has counted nothing in the window of an instant: it has no bucket, and the identifier
  -- drawn for one is free, or its bucket is of another window.
  abbrev pub IsUnused : ℕ → Session → Type 0
  IsUnused now s =
      ((find_bucket (hit now) s.db ≡ none)
        × (bucket_id_is_free (fresh_bucket (env.uuid s.draws) (hit now)) s.db ≡ true))
      ⊎ ((b : RateLimitBucket) × (find_bucket (hit now) s.db ≡ some b)
          × ((b.window_started_at == (hit now).window_started_at) ≡ false))

  found_anywhere :
      (now later : ℕ) (d : Db) (b : RateLimitBucket)
      → find_bucket (hit now) d ≡ some b
      → find_bucket (hit later) d ≡ some b
  unfolding hit_of
  found_anywhere now later d b found = found

  restarted :
      (now : ℕ) (b : RateLimitBucket)
      → (b.window_started_at == (hit now).window_started_at) ≡ false
      → (conflict_update (hit now) b).request_count ≡ 1
  unfolding conflict_update
  restarted now b other = rw other refl

  fresh_start :
      (now id : ℕ)
      → (fresh_bucket id (hit now)).window_started_at ≡ window_start now rule.window_seconds
  unfolding hit_of
  fresh_start now id = refl

  -- When transactions run one after the other, a rule that has counted nothing in a window admits
  -- the first requests of that window up to its limit and blocks every later one: the run raises
  -- nothing, and its statuses are those of a counter that starts at 0.
  pub checks-over_limit :
      (now : ℕ) (nows : List ℕ) (s : Session)
      → IsUnused now s
      → All
          (λ later. window_start later rule.window_seconds ≡ window_start now rule.window_seconds)
          nows
      → Blocks (collect (now ∷ nows) check env s).0 (over_limit rule.limit 0 (now ∷ nows))
  checks-over_limit now nows s (inl (absent, free)) within =
      first now nows s _ _ (consume_fresh env serial (hit now) s absent free)
        (λ later. fresh_found now later (env.uuid s.draws) s.db absent)
        (fresh_start now (env.uuid s.draws)) refl within
  checks-over_limit now nows s (inr (b, found, other)) within =
      first now nows s _ _ (consume_found env serial (hit now) s b found)
        (λ later. found_after now later s.db b (found_anywhere now later s.db b found))
        (starts_at now b) (restarted now b other) within
