-- ===== src/Limits/Refusals.antt =====
-- What `enforce` and `enforce_or_raise` make of a policy, whatever the store holds.
use escrow_fx_marketplace.Common.{
  ℕ, ◌≤◌, ◌≡◌, refl, Bool, true, false, not, ◌&&◌, Option, none, some, String, List, [], ◌∷◌, All,
  select, is_none, Bool-cases, inl, inr, arith,
}
use escrow_fx_marketplace.Domain.Errors.{Result, ok, err, rate_limited}
use escrow_fx_marketplace.Store.Db.{Db}
use escrow_fx_marketplace.Store.Action.{Env, Session, pure, when, commit, transact}
use escrow_fx_marketplace.Store.Ensures.{Ensures, returned, raised, Ensures-bind, Ensures-then}
use escrow_fx_marketplace.Store.Idempotency.{IdempotencyRequest}
use escrow_fx_marketplace.Limits.Policies.{
  RateLimitFailureMode, RateLimitRule, RateLimitPolicy, Dimension, LimitSettings,
  get_rate_limit_policy,
}
use escrow_fx_marketplace.Limits.Windows.{RateLimitStatus, status_headers}
use escrow_fx_marketplace.Limits.Bounds.{IsWithin, Fits, status_headers-Fits}
use escrow_fx_marketplace.Limits.Enforce.{
  RateLimitDecision, bypasses, bucket_for, hit_of, status_of, check_rule, with_status, check_rules,
  decide, apply_policy, by_failure_mode, enforce_policy, enforce, enforce_or_raise, unless_limited,
}

abbrev Anything : Db → Type 0
Anything d = Unit

trivial : {A : Type 0} (r : Result A × Session) → Ensures Anything (λ _ _. Unit {0}) r
trivial (ok a, s) = returned tt tt
trivial (err e, s) = raised tt

-- A refusal says when to retry: after 1 to `longest` seconds.
abbrev pub IsFair : (longest : ℕ) → RateLimitDecision → Type 0
IsFair longest decision =
    decision.limited ≡ true → (n : ℕ) × (decision.retry_after ≡ some n) × (1 ≤ n) × (n ≤ longest)

abbrev pub FitsRule : (longest : ℕ) → RateLimitRule → Type 0
FitsRule longest rule = (1 ≤ rule.window_seconds) × (rule.window_seconds ≤ longest)

module _ (key_hash : String → Dimension → String → String) (policy : RateLimitPolicy)
    (bypass_replay : Bool) (now longest : ℕ) (env : Env) where
  check_rule-Ensures :
      (rule : RateLimitRule) (identity : String) (s : Session)
      → FitsRule longest rule
      → Ensures Anything
          (λ status _. IsWithin now longest status)
          (check_rule key_hash policy bypass_replay now rule identity env s)
  unfolding check_rule status_of pure
  check_rule-Ensures rule identity s h =
      Ensures-bind {P = λ _ _. Unit {0}}
        (bucket_for bypass_replay (hit_of key_hash policy rule now identity)) _ s (trivial _)
        (λ b t _ _. returned tt (rule.window_seconds, h.0, h.1, refl))

  check_rules-Ensures :
      (identities : Dimension → Option String) (rules : List RateLimitRule) (s : Session)
      → All (FitsRule longest) rules
      → Ensures Anything
          (λ statuses _. All (IsWithin now longest) statuses)
          (check_rules key_hash policy bypass_replay now identities rules env s)
  unfolding check_rules pure
  check_rules-Ensures identities [] s h = returned tt tt
  check_rules-Ensures identities (rule ∷ rules) s h =
      by_identity (identities rule.dimension) (λ t. check_rules-Ensures identities rules t h.1) s
    where
      by_identity :
          (o : Option String)
          → ((t : Session)
              → Ensures Anything
                  (λ statuses _. All (IsWithin now longest) statuses)
                  (check_rules key_hash policy bypass_replay now identities rules env t))
          → (s : Session)
          → Ensures Anything
              (λ statuses _. All (IsWithin now longest) statuses)
              (with_status o
                (check_rule key_hash policy bypass_replay now rule)
                (check_rules key_hash policy bypass_replay now identities rules)
                env
                s)
      by_identity none ih s = ih s
      by_identity (some identity) ih s =
          Ensures-bind (check_rule key_hash policy bypass_replay now rule identity) _ s
            (check_rule-Ensures rule identity s h.0)
            (λ status t _ fits.
              Ensures-bind (check_rules key_hash policy bypass_replay now identities rules) _ t
                (ih t) (λ statuses u _ rest. returned tt (fits, rest)))

fair :
    (bypass_replay : Bool) (longest : ℕ) (blocked : List RateLimitStatus) (retry_after : Option ℕ)
    → Fits longest blocked retry_after
    → not (is_none retry_after) && not bypass_replay ≡ true
    → (n : ℕ) × ((elim bypass_replay [ true ↦ none | false ↦ retry_after ]) ≡ some n)
      × (1 ≤ n)
      × (n ≤ longest)
fair true longest blocked retry_after h limited = ground (arith, limited)
fair false longest [] retry_after h limited = ground (arith, limited, h)
fair false longest (_ ∷ _) retry_after h limited = h

module _ (policy : RateLimitPolicy) (now longest : ℕ) (positive : 1 ≤ longest) (env : Env) where
  decide-Ensures :
      (bypass_replay : Bool) (statuses : List RateLimitStatus) (s : Session)
      → All (IsWithin now longest) statuses
      → Ensures Anything
          (λ decision _. IsFair longest decision)
          (decide policy bypass_replay now statuses env s)
  unfolding decide pure
  decide-Ensures bypass_replay statuses s h =
      Ensures-then {P = λ _ _. Unit {0}} (when (not bypass_replay) commit tt) _ s (trivial _)
        (λ t _ _. returned tt (
          fair bypass_replay longest (select RateLimitStatus.blocked statuses)
            (status_headers policy statuses now).1
            (status_headers-Fits policy now longest statuses positive h)))

  apply_policy-Ensures :
      (key_hash : String → Dimension → String → String) (identities : Dimension → Option String)
      (replay : Option IdempotencyRequest) (s : Session)
      → All (FitsRule longest) policy.rules
      → Ensures Anything
          (λ decision _. IsFair longest decision)
          (apply_policy key_hash policy identities replay now env s)
  unfolding apply_policy
  apply_policy-Ensures key_hash identities replay s h =
      Ensures-bind {P = λ _ _. Unit {0}} (bypasses replay now) _ s (trivial _)
        (λ bypass_replay t _ _.
          Ensures-bind (check_rules key_hash policy bypass_replay now identities policy.rules) _ t
            (check_rules-Ensures key_hash policy bypass_replay now longest env identities
              policy.rules t h)
            (λ statuses u _ within. decide-Ensures bypass_replay statuses u within))

-- What an admitted or refused request is told by the end of a transaction.
abbrev EndsFair : (longest : ℕ) → Result RateLimitDecision → Type 0
EndsFair longest (ok decision) = IsFair longest decision
EndsFair longest (err e) = Unit

ends_fair :
    {longest : ℕ} {r : Result RateLimitDecision × Session}
    → Ensures Anything (λ decision _. IsFair longest decision) r
    → EndsFair longest r.0
ends_fair (returned i q) = q
ends_fair (raised i) = tt

abbrev pub RetriesWithin : (longest : ℕ) → Result RateLimitDecision → Type 0
RetriesWithin longest r = (n : ℕ) → r ≡ err (rate_limited n) → (1 ≤ n) × (n ≤ longest)

unless_limited-RetriesWithin :
    (longest : ℕ) (mode : RateLimitFailureMode) (r : Result RateLimitDecision) (d : Db)
    → EndsFair longest r
    → RetriesWithin longest (unless_limited (by_failure_mode mode (r, d))).0
unfolding unless_limited by_failure_mode
unless_limited-RetriesWithin longest mode (ok decision) d fair n e =
    elim (Bool-cases decision.limited) [
      | inl limited ↦
          let (m, retry, least, most) = fair limited in
          ground (arith, limited, retry, least, most, e)
      | inr admitted ↦ ground (arith, admitted, e)
    ]
unless_limited-RetriesWithin longest RateLimitFailureMode.fail_open (err x) d fair n e = cc
unless_limited-RetriesWithin longest RateLimitFailureMode.fail_closed (err x) d fair n e = cc

module _ (key_hash : String → Dimension → String → String) (settings : LimitSettings)
    (policy_name : String) (policy : RateLimitPolicy)
    (named : get_rate_limit_policy settings policy_name ≡ ok policy)
    (identities : Dimension → Option String) (replay : Option IdempotencyRequest) (env : Env)
    (d : Db) where
  -- A request that a policy refuses is told to come back after at least one second and at most the
  -- longest window of the policy's rules, whatever the buckets hold.
  pub enforce_or_raise-RetriesWithin :
      (longest : ℕ)
      → 1 ≤ longest
      → All (FitsRule longest) policy.rules
      → RetriesWithin longest
          (enforce_or_raise key_hash settings transact policy_name identities replay env d).0
  unfolding enforce_or_raise enforce enforce_policy transact
  enforce_or_raise-RetriesWithin longest positive fits =
      rw named (by_switch settings.rate_limit_enabled)
    where
      by_switch :
          (enabled : Bool)
          → RetriesWithin longest
              (unless_limited (
                enforce_policy key_hash settings transact
                  (ok policy)
                  identities
                  replay
                  enabled
                  env
                  d)).0
      by_switch false = λ n e. cc
      by_switch true = unless_limited-RetriesWithin longest policy.failure_mode _ _ (
          ends_fair (
            apply_policy-Ensures policy (env.clock 0) longest positive env key_hash identities
              replay _ fits))
