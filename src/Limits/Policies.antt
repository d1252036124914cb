-- ===== src/Limits/Policies.antt =====
-- The policies, `get_rate_limit_policy`, and the settings that it reads.
use escrow_fx_marketplace.Common.{
  ℕ, ◌*◌, ◌≤◌, ◌≡◌, refl, Bool, ◌||◌, Option, none, some, String, List, [], ◌∷◌, All, find, ltb,
  if◌then◌else◌, Bool-cases, inl, inr, arith,
}
use escrow_fx_marketplace.Domain.Errors.{Result, ok, err, value_error}
use text.Mathlib.Text.{◌==◌ as str_eq}

-- `RateLimitFailureMode`
pub data RateLimitFailureMode : Type 0 where
  fail_open fail_closed : RateLimitFailureMode

-- The names of rules and dimensions, and the categories, for the source's texts.
pub data Dimension : Type 0 where
  ip account token user : Dimension

pub data Category : Type 0 where
  auth account kyc marketplace : Category

-- `RateLimitRule`: every rule has the name of its dimension.
pub record RateLimitRule : Type 0 where
  pub dimension : Dimension
  pub limit : ℕ
  pub window_seconds : ℕ

-- `RateLimitPolicy`
pub record RateLimitPolicy : Type 0 where
  pub name : String
  pub category : Category
  pub rules : List RateLimitRule
  pub failure_mode : RateLimitFailureMode

abbrev rule : Dimension → (limit window_seconds : ℕ) → RateLimitRule
rule dimension limit window_seconds = record {
  dimension = dimension;
  limit = limit;
  window_seconds = window_seconds;
}

abbrev closed : String → Category → List RateLimitRule → RateLimitPolicy
closed name category rules = record {
  name = name;
  category = category;
  rules = rules;
  failure_mode = RateLimitFailureMode.fail_closed;
}

-- `_BASE_POLICIES`
abbrev base_policies : List RateLimitPolicy
base_policies =
    closed "auth.register" Category.auth
      (rule Dimension.ip 5 (15 * 60) ∷ rule Dimension.account 3 (60 * 60) ∷ [])
    ∷ closed "auth.login" Category.auth
        (rule Dimension.ip 30 (15 * 60) ∷ rule Dimension.account 10 (15 * 60) ∷ [])
    ∷ closed "auth.resend-verification" Category.auth
        (rule Dimension.ip 10 (60 * 60) ∷ rule Dimension.account 3 (60 * 60) ∷ [])
    ∷ closed "auth.forgot-password" Category.auth
        (rule Dimension.ip 10 (60 * 60) ∷ rule Dimension.account 3 (60 * 60) ∷ [])
    ∷ closed "auth.verify-email" Category.auth
        (rule Dimension.ip 20 (15 * 60) ∷ rule Dimension.token 5 (15 * 60) ∷ [])
    ∷ closed "auth.reset-password" Category.auth
        (rule Dimension.ip 10 (15 * 60) ∷ rule Dimension.token 5 (15 * 60) ∷ [])
    ∷ closed "auth.change-password" Category.account (rule Dimension.user 5 (60 * 60) ∷ [])
    ∷ closed "account.mutation" Category.account (rule Dimension.user 20 (15 * 60) ∷ [])
    ∷ closed "account.deactivate" Category.account (rule Dimension.user 3 (60 * 60) ∷ [])
    ∷ closed "kyc.submit" Category.kyc (rule Dimension.user 5 (60 * 60) ∷ [])
    ∷ record (closed "marketplace.mutation" Category.marketplace (rule Dimension.user 30 60 ∷ [])) {
      failure_mode = RateLimitFailureMode.fail_open;
    }
    ∷ closed "admin.mutation" Category.account (rule Dimension.user 60 60 ∷ [])
    ∷ []

-- An entry of `rate_limit_policy_overrides`. The source reads integers, and refuses a negative
-- one as it refuses 0.
pub record Override : Type 0 where
  pub limit : Option ℕ
  pub window_seconds : Option ℕ

-- `settings`, as far as the limiter reads them.
pub record LimitSettings : Type 0 where
  pub rate_limit_enabled : Bool
  pub fail_closed_auth : Bool
  pub fail_closed_account : Bool
  pub fail_closed_kyc : Bool
  pub fail_closed_marketplace : Bool
  pub policy_overrides : (policy_name : String) → (rule_name : Dimension) → Override

abbrev or_default : Option ℕ → ℕ → ℕ
or_default none n = n
or_default (some m) n = m

-- The body of the loop over the rules.
unfoldable pub overridden_rule : Override → RateLimitRule → Result RateLimitRule
overridden_rule o r =
    let limit = or_default o.limit r.limit in
    let window_seconds = or_default o.window_seconds r.window_seconds in
    if ltb limit 1 || ltb window_seconds 1
    then err value_error
    else ok (record r { limit = limit; window_seconds = window_seconds })

abbrev prepend : RateLimitRule → Result (List RateLimitRule) → Result (List RateLimitRule)
prepend r (ok rs) = ok (r ∷ rs)
prepend r (err e) = err e

abbrev first_error :
    Result RateLimitRule → Result (List RateLimitRule) → Result (List RateLimitRule)
first_error (ok r) rest = prepend r rest
first_error (err e) rest = err e

unfoldable pub overridden_rules :
    (Dimension → Override) → List RateLimitRule → Result (List RateLimitRule)
unfolding overridden_rule
overridden_rules overrides [] = ok []
overridden_rules overrides (r ∷ rs) =
    first_error (overridden_rule (overrides r.dimension) r) (overridden_rules overrides rs)

abbrev mode_if : Bool → RateLimitFailureMode
mode_if closes = if closes then RateLimitFailureMode.fail_closed else RateLimitFailureMode.fail_open

abbrev pub failure_mode_of : LimitSettings → Category → RateLimitFailureMode
failure_mode_of settings Category.auth = mode_if settings.fail_closed_auth
failure_mode_of settings Category.account = mode_if settings.fail_closed_account
failure_mode_of settings Category.kyc = mode_if settings.fail_closed_kyc
failure_mode_of settings Category.marketplace = mode_if settings.fail_closed_marketplace

abbrev with_rules :
    LimitSettings → RateLimitPolicy → Result (List RateLimitRule) → Result RateLimitPolicy
with_rules settings policy (ok rules) =
    ok (record policy { rules = rules; failure_mode = failure_mode_of settings policy.category })
with_rules settings policy (err e) = err e

abbrev of_base : LimitSettings → String → Option RateLimitPolicy → Result RateLimitPolicy
of_base settings name none = err value_error
of_base settings name (some policy) =
    with_rules settings policy (overridden_rules (settings.policy_overrides name) policy.rules)

-- `get_rate_limit_policy`
unfoldable pub get_rate_limit_policy : LimitSettings → String → Result RateLimitPolicy
unfolding overridden_rules
get_rate_limit_policy settings name =
    of_base settings name (find (λ p. str_eq p.name name) base_policies)

abbrev pub IsUsable : RateLimitRule → Type 0
IsUsable r = (1 ≤ r.limit) × (1 ≤ r.window_seconds)

abbrev pub EachUsable : Result (List RateLimitRule) → Type 0
EachUsable (ok rules) = All IsUsable rules
EachUsable (err e) = e ≡ value_error

overridden_rules-EachUsable :
    (overrides : Dimension → Override) (rules : List RateLimitRule)
    → EachUsable (overridden_rules overrides rules)
unfolding overridden_rules overridden_rule
overridden_rules-EachUsable overrides [] = tt
overridden_rules-EachUsable overrides (r ∷ rs) =
    joined (or_default (overrides r.dimension).limit r.limit)
      (or_default (overrides r.dimension).window_seconds r.window_seconds)
      (overridden_rules overrides rs) (overridden_rules-EachUsable overrides rs)
  where
    kept :
        (q : RateLimitRule) (rest : Result (List RateLimitRule))
        → IsUsable q
        → EachUsable rest
        → EachUsable (prepend q rest)
    kept q (ok rules) u h = (u, h)
    kept q (err e) u h = h

    joined :
        (limit window : ℕ) (rest : Result (List RateLimitRule))
        → EachUsable rest
        → EachUsable (
            first_error
              (if ltb limit 1 || ltb window 1
                then err value_error
                else ok (record r { limit = limit; window_seconds = window }))
              rest)
    joined limit window rest h = elim (Bool-cases (ltb limit 1 || ltb window 1)) [
      | inl bad ↦ rw bad refl
      | inr good ↦ rw good (kept _ rest (ground (arith, good)) h)
    ]
