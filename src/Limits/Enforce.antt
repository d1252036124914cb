-- ===== src/Limits/Enforce.antt =====
-- RateLimitService.
use escrow_fx_marketplace.Common.{
  ℕ, ◌-◌, Bool, true, false, not, ◌&&◌, Option, none, some, String, List, [], ◌∷◌, ltb, ◌==◌,
  is_none, if◌then◌else◌,
}
use escrow_fx_marketplace.Domain.Errors.{Result, ok, err, rate_limited, infrastructure_failure}
use escrow_fx_marketplace.Store.Db.{Db, RateLimitBucket}
use escrow_fx_marketplace.Store.Action.{Env, Action, ◌>>=◌, ◌>>◌, pure, when, commit}
use escrow_fx_marketplace.Store.Idempotency.{IdempotencyRequest, get_completed}
use escrow_fx_marketplace.Store.RateLimits.{Hit, consume, get_bucket}
use escrow_fx_marketplace.Limits.Policies.{
  RateLimitFailureMode, RateLimitRule, RateLimitPolicy, Dimension, LimitSettings,
  get_rate_limit_policy,
}
use escrow_fx_marketplace.Limits.Windows.{
  RateLimitStatus, RateLimitHeaders, window_start, window_end, status_headers,
}

-- `RateLimitDecision`
pub record RateLimitDecision : Type 0 where
  pub limited : Bool
  pub headers : Option RateLimitHeaders
  pub retry_after : Option ℕ
  pub bypassed_completed_replay : Bool
  pub storage_unavailable : Bool

abbrev pub allowed : RateLimitDecision
allowed = record {
  limited = false;
  headers = none;
  retry_after = none;
  bypassed_completed_replay = false;
  storage_unavailable = false;
}

-- `replay is not None`, where the four arguments about the replay are given.
unfoldable pub bypasses : Option IdempotencyRequest → (now : ℕ) → Action Bool
unfolding get_completed
bypasses none now = pure false
bypasses (some q) now = do replay ← get_completed q now; pure (not (is_none replay))

abbrev pub request_count_of : Option RateLimitBucket → ℕ
request_count_of none = 0
request_count_of (some b) = b.request_count

unfoldable pub status_of : RateLimitRule → (reset_at count : ℕ) → RateLimitStatus
status_of rule reset_at count = record {
  limit = rule.limit;
  remaining = rule.limit - count;
  reset_at = reset_at;
  blocked = ltb rule.limit count;
}

-- The bucket of a rule: read for a completed replay, and consumed else.
unfoldable pub bucket_for : (bypass_replay : Bool) → Hit → Action (Option RateLimitBucket)
unfolding consume get_bucket
bucket_for true h = get_bucket h
bucket_for false h = do b ← consume h; pure (some b)

-- The commit, and the decision.
unfoldable pub decide :
    RateLimitPolicy
    → (bypass_replay : Bool) → (now : ℕ) → List RateLimitStatus
    → Action RateLimitDecision
unfolding status_headers
decide policy bypass_replay now statuses =
    let (headers, retry_after) = status_headers policy statuses now in
    (do
      when (not bypass_replay) commit tt
      pure (record {
        limited = not (is_none retry_after) && not bypass_replay;
        headers = headers;
        retry_after = elim bypass_replay [ true ↦ none | false ↦ retry_after ];
        bypassed_completed_replay = bypass_replay;
        storage_unavailable = false;
      }))

-- What the `except Exception` makes of the transaction's end.
unfoldable pub by_failure_mode :
    RateLimitFailureMode → Result RateLimitDecision × Db → Result RateLimitDecision × Db
by_failure_mode mode (ok decision, d) = (ok decision, d)
by_failure_mode RateLimitFailureMode.fail_open (err e, d) =
    (ok (record allowed { storage_unavailable = true }), d)
by_failure_mode RateLimitFailureMode.fail_closed (err e, d) = (err infrastructure_failure, d)

-- `if identity is None: continue`, by the status where there is one.
unfoldable pub with_status :
    Option String
    → (String → Action RateLimitStatus)
    → Action (List RateLimitStatus)
    → Action (List RateLimitStatus)
with_status none check rest = rest
with_status (some identity) check rest = do
  status ← check identity
  statuses ← rest
  pure (status ∷ statuses)

-- `decision.retry_after or 1`
abbrev pub or_one : Option ℕ → ℕ
or_one none = 1
or_one (some n) = if n == 0 then 1 else n

unfoldable pub unless_limited : Result RateLimitDecision × Db → Result RateLimitDecision × Db
unless_limited (err e, d) = (err e, d)
unless_limited (ok decision, d) = (
  elim decision.limited [
    | true ↦ err (rate_limited (or_one decision.retry_after))
    | false ↦ ok decision
  ],
  d,
)

-- `hash_rate_limit_key` of a policy's name, a rule and an identity: the HMAC is the standard
-- library's, and no more is used of it than that it is a function.
module _ (key_hash : String → Dimension → String → String) where
  unfoldable pub hit_of : RateLimitPolicy → RateLimitRule → (now : ℕ) → String → Hit
  unfolding window_start window_end
  hit_of policy rule now identity = record {
    policy_name = policy.name;
    key_hash = key_hash policy.name rule.dimension identity;
    window_started_at = window_start now rule.window_seconds;
    expires_at = window_end now rule.window_seconds;
    limit = rule.limit;
    now = now;
  }

  unfoldable pub check_rule :
      RateLimitPolicy
      → (bypass_replay : Bool) → (now : ℕ) → RateLimitRule
      → String
      → Action RateLimitStatus
  unfolding hit_of bucket_for status_of window_end
  check_rule policy bypass_replay now rule identity = do
    bucket ← bucket_for bypass_replay (hit_of policy rule now identity)
    pure (status_of rule (window_end now rule.window_seconds) (request_count_of bucket))

  -- `for rule in policy.rules: ...`
  unfoldable pub check_rules :
      RateLimitPolicy
      → (bypass_replay : Bool) → (now : ℕ) → (Dimension → Option String)
      → List RateLimitRule
      → Action (List RateLimitStatus)
  unfolding check_rule with_status
  check_rules policy bypass_replay now identities [] = pure []
  check_rules policy bypass_replay now identities (rule ∷ rules) =
      with_status (identities rule.dimension) (check_rule policy bypass_replay now rule)
        (check_rules policy bypass_replay now identities rules)

  -- The body of the `async with`.
  unfoldable pub apply_policy :
      RateLimitPolicy
      → (Dimension → Option String)
      → Option IdempotencyRequest
      → (now : ℕ) → Action RateLimitDecision
  unfolding bypasses check_rules decide
  apply_policy policy identities replay now = do
    bypass_replay ← bypasses replay now
    statuses ← check_rules policy bypass_replay now identities policy.rules
    decide policy bypass_replay now statuses

  -- The service's `uow_factory`, which may fail to reach the store: how it runs the body.
  module _ (settings : LimitSettings)
      (run : Action RateLimitDecision → Env → Db → Result RateLimitDecision × Db) where
    unfoldable pub enforce_policy :
        Result RateLimitPolicy
        → (Dimension → Option String)
        → Option IdempotencyRequest
        → (enabled : Bool) → Env
        → Db
        → Result RateLimitDecision × Db
    unfolding apply_policy by_failure_mode
    enforce_policy (err e) identities replay enabled env d = (err e, d)
    enforce_policy (ok policy) identities replay false env d = (ok allowed, d)
    enforce_policy (ok policy) identities replay true env d =
        by_failure_mode policy.failure_mode
          (run (apply_policy policy identities replay (env.clock 0)) env d)

    -- `enforce`
    unfoldable pub enforce :
        (policy_name : String)
        → (Dimension → Option String)
        → Option IdempotencyRequest
        → Env
        → Db
        → Result RateLimitDecision × Db
    unfolding get_rate_limit_policy enforce_policy
    enforce policy_name identities replay =
        enforce_policy (get_rate_limit_policy settings policy_name) identities replay
          settings.rate_limit_enabled

    -- `enforce_or_raise`; the headers of the refusal are those of the decision.
    unfoldable pub enforce_or_raise :
        (policy_name : String)
        → (Dimension → Option String)
        → Option IdempotencyRequest
        → Env
        → Db
        → Result RateLimitDecision × Db
    unfolding enforce unless_limited
    enforce_or_raise policy_name identities replay env d =
        unless_limited (enforce policy_name identities replay env d)
