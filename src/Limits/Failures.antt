-- ===== src/Limits/Failures.antt =====
-- What the limiter does when its store fails, and on the replay of a completed request.
use escrow_fx_marketplace.Common.{
  ℕ, ◌≡◌, refl, Bool, true, false, not, ◌&&◌, Option, none, some, String, List, [], ◌∷◌, is_none,
  find,
}
use escrow_fx_marketplace.Domain.Errors.{AppError, Result, ok, err, rate_limited}
use escrow_fx_marketplace.Store.Db.{Db, IdempotencyRecord}
use escrow_fx_marketplace.Store.Action.{
  Env, Session, Action, ◌>>=◌, ◌>>◌, pure, reads, when, transact, begin,
}
use escrow_fx_marketplace.Store.Idempotency.{IdempotencyRequest, is_replay, get_completed}
use escrow_fx_marketplace.Store.RateLimits.{get_bucket}
use escrow_fx_marketplace.Limits.Policies.{
  RateLimitFailureMode, RateLimitRule, RateLimitPolicy, Dimension, LimitSettings,
  get_rate_limit_policy,
}
use escrow_fx_marketplace.Limits.Windows.{RateLimitStatus, status_headers}
use escrow_fx_marketplace.Limits.Enforce.{
  RateLimitDecision, bypasses, bucket_for, check_rule, with_status, check_rules, decide,
  apply_policy, by_failure_mode, enforce_policy, enforce, enforce_or_raise, unless_limited, or_one,
}

-- The transaction that counts a request returned a decision by which a rule blocks it, and the error
-- tells the client when to come back.
abbrev pub IsRefusal : (counted : Result RateLimitDecision × Db) → AppError → Type 0
IsRefusal counted e =
    (decision : RateLimitDecision) × (counted.0 ≡ ok decision)
    × (decision.limited ≡ true)
    × (e ≡ rate_limited (or_one decision.retry_after))

-- How a run ends under each mode: what lets a request pass, and what stops it.
abbrev pub IsGoverned :
    RateLimitFailureMode → (counted final : Result RateLimitDecision × Db) → Type 0
IsGoverned RateLimitFailureMode.fail_closed counted final =
    (decision : RateLimitDecision)
    → (after : Db) → final ≡ (ok decision, after)
    → (counted ≡ (ok decision, after)) × (decision.limited ≡ false)
IsGoverned RateLimitFailureMode.fail_open counted final =
    (e : AppError) → final.0 ≡ err e → IsRefusal counted e

and_false : (b : Bool) → (b && false) ≡ false
and_false true = refl
and_false false = refl

joined :
    {A : Type 0} (m : Action A) (n : Action (List A)) (env : Env) (s : Session) (a : A)
    (as_ : List A)
    → m env s ≡ (ok a, s)
    → n env s ≡ (ok as_, s)
    → (do a ← m; rest ← n; pure (a ∷ rest)) env s ≡ (ok (a ∷ as_), s)
unfolding ◌>>=◌ pure
joined m n env s a as_ e f = rw (e, f) refl

module _ (key_hash : String → Dimension → String → String) (policy : RateLimitPolicy) (now : ℕ)
    (env : Env) where
  check_rule_bypassed :
      (rule : RateLimitRule) (identity : String) (s : Session)
      → (status : RateLimitStatus) × (check_rule key_hash policy true now rule identity env s
          ≡ (ok status, s))
  unfolding check_rule bucket_for get_bucket reads ◌>>=◌ pure
  check_rule_bypassed rule identity s = (_, refl)

  -- A check of a completed replay reads the buckets and changes nothing.
  check_rules_bypassed :
      (identities : Dimension → Option String) (rules : List RateLimitRule) (s : Session)
      → (statuses : List RateLimitStatus) × (check_rules key_hash policy true now identities rules
            env s
          ≡ (ok statuses, s))
  unfolding check_rules pure
  check_rules_bypassed identities [] s = ([], refl)
  check_rules_bypassed identities (rule ∷ rules) s =
      by_identity (identities rule.dimension) (check_rules_bypassed identities rules s)
    where
      by_identity :
          (o : Option String)
          → (statuses : List RateLimitStatus) × (check_rules key_hash policy true now identities
                rules env s
              ≡ (ok statuses, s))
          → (statuses : List RateLimitStatus) × (with_status o
                (check_rule key_hash policy true now rule)
                (check_rules key_hash policy true now identities rules)
                env
                s
              ≡ (ok statuses, s))
      by_identity none ih = ih
      by_identity (some identity) (statuses, e) =
          let (status, f) = check_rule_bypassed rule identity s in
          (
            status ∷ statuses,
            joined (check_rule key_hash policy true now rule identity)
                (check_rules key_hash policy true now identities rules) env s status statuses f e,
          )

  decide_bypassed :
      (statuses : List RateLimitStatus) (s : Session)
      → (decision : RateLimitDecision) × (decide policy true now statuses env s ≡ (ok decision, s))
        × (decision.limited ≡ false)
        × (decision.bypassed_completed_replay ≡ true)
  unfolding decide pure ◌>>◌ ◌>>=◌ when
  decide_bypassed statuses s = (
    record {
      limited = not (is_none (status_headers policy statuses now).1) && false;
      headers = (status_headers policy statuses now).0;
      retry_after = none;
      bypassed_completed_replay = true;
      storage_unavailable = false;
    },
    refl,
    and_false (not (is_none (status_headers policy statuses now).1)),
    refl,
  )

  -- The replay of a request that was completed
  apply_policy_bypassed :
      (identities : Dimension → Option String) (q : IdempotencyRequest) (s : Session)
      (r : IdempotencyRecord)
      → find (is_replay q now) s.db.idempotency ≡ some r
      → (decision : RateLimitDecision) × (apply_policy key_hash policy identities (some q) now env s
          ≡ (ok decision, s))
        × (decision.limited ≡ false)
        × (decision.bypassed_completed_replay ≡ true)
  unfolding apply_policy bypasses get_completed reads ◌>>=◌ pure
  apply_policy_bypassed identities q s r found =
      let (statuses, e) = check_rules_bypassed identities policy.rules s in
      let (decision, f, passes, bypassed) = decide_bypassed statuses s in
      (decision, rw (found, e) f, passes, bypassed)

module _ (key_hash : String → Dimension → String → String) (settings : LimitSettings)
    (enabled : settings.rate_limit_enabled ≡ true) (policy_name : String) (policy : RateLimitPolicy)
    (named : get_rate_limit_policy settings policy_name ≡ ok policy) where
  -- Where the limiter is enabled and the policy is known, a request that replays a completed one,
  -- unexpired and with the same fingerprint, is admitted whatever its identities have used up, and
  -- the database is left as it was: the replay counts against no rule.
  pub enforce_or_raise-replay :
      (identities : Dimension → Option String) (q : IdempotencyRequest) (env : Env) (d : Db)
      (r : IdempotencyRecord)
      → find (is_replay q (env.clock 0)) d.idempotency ≡ some r
      → (decision : RateLimitDecision) × (enforce_or_raise key_hash settings transact policy_name
            identities
            (some q)
            env
            d
          ≡ (ok decision, d))
        × (decision.bypassed_completed_replay ≡ true)
  unfolding enforce_or_raise enforce enforce_policy transact by_failure_mode unless_limited
  enforce_or_raise-replay identities q env d r found =
      let (decision, e, passes, bypassed) =
        apply_policy_bypassed key_hash policy (env.clock 0) env identities q (begin d) r found in
      (decision, rw (named, enabled, e, passes) refl, bypassed)
