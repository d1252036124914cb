-- ===== src/Limits/Windows.antt =====
-- `_window` and `_status_headers`. Instants are microseconds.
use escrow_fx_marketplace.Common.{
  ℕ, ◌+◌, ◌-◌, ◌*◌, ◌/◌, Bool, Option, none, some, List, [], ◌∷◌, map, select, leb, if◌then◌else◌,
}
use escrow_fx_marketplace.Store.RateLimits.{min}
use escrow_fx_marketplace.Limits.Policies.{RateLimitRule, RateLimitPolicy}

-- `timedelta(seconds=...)`
abbrev pub timedelta : ℕ → ℕ
timedelta seconds = seconds * 1_000_000

-- The two values of `_window`.
unfoldable pub window_start : (now seconds : ℕ) → ℕ
window_start now seconds = (now / timedelta seconds) * timedelta seconds

unfoldable pub window_end : (now seconds : ℕ) → ℕ
unfolding window_start
window_end now seconds = window_start now seconds + timedelta seconds

-- `RateLimitStatus`
pub record RateLimitStatus : Type 0 where
  pub limit : ℕ
  pub remaining : ℕ
  pub reset_at : ℕ
  pub blocked : Bool

-- The four headers, as the numbers that they print; `policy` prints the limit and the window of
-- each rule.
pub record RateLimitHeaders : Type 0 where
  pub limit : ℕ
  pub remaining : ℕ
  pub reset : ℕ
  pub policy : List RateLimitRule

abbrev pub max : ℕ → ℕ → ℕ
max a b = if leb a b then b else a

abbrev pub minimum : ℕ → List ℕ → ℕ
minimum x [] = x
minimum x (y ∷ ys) = minimum (min x y) ys

-- `max(..., default=0)`
abbrev pub maximum : List ℕ → ℕ
maximum [] = 0
maximum (x ∷ xs) = max x (maximum xs)

-- `math.ceil(max(status.reset_at - now, timedelta()).total_seconds())`
unfoldable pub seconds_left : (now : ℕ) → RateLimitStatus → ℕ
seconds_left now status = (status.reset_at - now + 999_999) / 1_000_000

abbrev pub retry_after_of : (now : ℕ) → List RateLimitStatus → Option ℕ
retry_after_of now [] = none
retry_after_of now (s ∷ ss) = some (max 1 (maximum (map (seconds_left now) (s ∷ ss))))

abbrev pub or_else : Option ℕ → ℕ → ℕ
or_else none n = n
or_else (some m) n = m

-- `_status_headers`
unfoldable pub status_headers :
    RateLimitPolicy → List RateLimitStatus → (now : ℕ) → Option RateLimitHeaders × Option ℕ
unfolding seconds_left
status_headers policy [] now = (none, none)
status_headers policy (s ∷ ss) now =
    let retry_after = retry_after_of now (select RateLimitStatus.blocked (s ∷ ss)) in
    (
      some (record {
        limit = minimum s.limit (map RateLimitStatus.limit ss);
        remaining = minimum s.remaining (map RateLimitStatus.remaining ss);
        reset = or_else retry_after (maximum (map (seconds_left now) (s ∷ ss)));
        policy = policy.rules;
      }),
      retry_after,
    )
