-- ===== src/Examples/Limiting.antt =====
-- The theorems about the rate limiter.
use escrow_fx_marketplace.Common.{
  ◌≡◌, refl, none, some, Option, [], ◌∷◌, true, false, String, inl, arith,
}
use escrow_fx_marketplace.Domain.Errors.{Result, ok, err, infrastructure_failure}
use escrow_fx_marketplace.Domain.Enums.{IdempotencyRecordStatus, ExchangeRequestStatus}
use escrow_fx_marketplace.Store.Db.{Db, RateLimitBucket, IdempotencyRecord, request_details}
use escrow_fx_marketplace.Store.Action.{Action, Env, begin, collect, transact}
use escrow_fx_marketplace.Store.RateLimits.{Hit, consume, consume_fallback}
use escrow_fx_marketplace.Limits.Policies.{
  RateLimitFailureMode, RateLimitRule, RateLimitPolicy, Dimension, Category, LimitSettings,
  Override, get_rate_limit_policy,
}
use escrow_fx_marketplace.Limits.Policies
use escrow_fx_marketplace.Limits.Windows.{window_start}
use escrow_fx_marketplace.Limits.Enforce.{RateLimitDecision, check_rule, enforce_or_raise}
use escrow_fx_marketplace.Limits.Fallback.{SameEnd, consume-eq-fallback}
use escrow_fx_marketplace.Limits.Counter.{Blocks, over_limit, checks-over_limit}
use escrow_fx_marketplace.Limits.Refusals.{RetriesWithin, enforce_or_raise-RetriesWithin}
use escrow_fx_marketplace.Limits.Failures.{enforce_or_raise-replay}
use escrow_fx_marketplace.Examples.Base.{env, serial, market, key, request}

abbrev by_identity : String → Dimension → String → String
by_identity policy dimension identity = identity

abbrev rule : RateLimitRule
rule = record { dimension = Dimension.user; limit = 1; window_seconds = 60 }

abbrev policy : RateLimitPolicy
policy = record {
  name = "admin.mutation";
  category = Category.account;
  rules = record { dimension = Dimension.user; limit = 60; window_seconds = 60 } ∷ [];
  failure_mode = RateLimitFailureMode.fail_closed;
}

abbrev settings : LimitSettings
settings = record {
  rate_limit_enabled = true;
  fail_closed_auth = true;
  fail_closed_account = true;
  fail_closed_kyc = true;
  fail_closed_marketplace = false;
  policy_overrides = λ _ _. record { limit = none; window_seconds = none };
}

abbrev identities : Dimension → Option String
identities dimension = some "u"

same_window : window_start 200 60 ≡ window_start 100 60
unfolding window_start
same_window = refl

-- The second request of a window is blocked where the limit is 1.
checks-over_limit_example :
    Blocks
      (collect
        (100 ∷ 200 ∷ [])
        (λ now. check_rule by_identity policy false now rule "u")
        env
        (begin market)).0
      (over_limit 1 0 (100 ∷ 200 ∷ []))
checks-over_limit_example =
    checks-over_limit by_identity policy rule "u" env serial 100 (200 ∷ []) (begin market)
      (inl (refl, refl)) (same_window, tt)

abbrev hit : Hit
hit = record {
  policy_name = "kyc.submit";
  key_hash = "u";
  window_started_at = 0;
  expires_at = 3600;
  limit = 5;
  now = 100;
}

abbrev bucket : RateLimitBucket
bucket = record {
  id = 90;
  policy_name = "kyc.submit";
  key_hash = "u";
  window_started_at = 0;
  request_count = 2;
  expires_at = 3600;
  created_at = 0;
  updated_at = 0;
}

abbrev counted_market : Db
counted_market = record market { buckets = bucket ∷ [] }

consume-eq-fallback_example :
    SameEnd
      (consume hit env (begin counted_market))
      (consume_fallback hit env (begin counted_market))
consume-eq-fallback_example =
    consume-eq-fallback hit env serial (begin counted_market) ((refl, tt), tt) ((λ _ _. refl), tt)

named : get_rate_limit_policy settings "admin.mutation" ≡ ok policy
unfolding get_rate_limit_policy Policies.overridden_rules Policies.overridden_rule
named = refl

-- A store that cannot be reached.
abbrev unreachable : Action RateLimitDecision → Env → Db → Result RateLimitDecision × Db
unreachable _ _ d = (err infrastructure_failure, d)

enforce_or_raise-RetriesWithin_example :
    RetriesWithin 60
      (enforce_or_raise by_identity settings transact "admin.mutation" identities none env market).0
enforce_or_raise-RetriesWithin_example =
    enforce_or_raise-RetriesWithin by_identity settings "admin.mutation" policy named identities
      none env market 60 (omega arith) ((omega arith, omega arith), tt)

abbrev completed : IdempotencyRecord
completed = record {
  id = 70;
  principal_user_id = 1;
  operation_scope = "accept_offer";
  key_hash = "k";
  request_fingerprint = "f";
  status = IdempotencyRecordStatus.completed;
  response_status_code = some 200;
  response_body = some (request_details (request 10 ExchangeRequestStatus.request_open));
  created_at = 0;
  updated_at = 0;
  expires_at = 9000;
  completed_at = some 1;
}

abbrev replayed_market : Db
replayed_market = record market { idempotency = completed ∷ [] }

enforce_or_raise-replay_example :
    (decision : RateLimitDecision) × (enforce_or_raise by_identity settings transact
        "admin.mutation" identities
        (some key)
        env
        replayed_market
      ≡ (ok decision, replayed_market))
    × (decision.bypassed_completed_replay ≡ true)
enforce_or_raise-replay_example =
    enforce_or_raise-replay by_identity settings refl "admin.mutation" policy named identities key
      env replayed_market completed refl
