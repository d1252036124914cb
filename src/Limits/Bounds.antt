-- ===== src/Limits/Bounds.antt =====
-- The window of an instant, and what a refused client is told.
use escrow_fx_marketplace.Common.{
  ℕ, ◌+◌, ◌*◌, ◌/◌, ◌≤◌, ◌<◌, ◌≡◌, refl, sym, ap, subst, ◌∙◌, Bool, Option, none, some, List, [],
  ◌∷◌, map, All, select, Bool-cases, inl, inr, arith,
}
use escrow_fx_marketplace.Limits.Policies.{RateLimitPolicy}
use escrow_fx_marketplace.Limits.Windows.{
  timedelta, window_start, window_end, RateLimitStatus, max, maximum, seconds_left, retry_after_of,
  status_headers,
}
use native.Mathlib.Nat.{div-eq_of_lt-le, add-mul, one-mul, div-mul-le_self, lt-div-mul-add}

same_quotient :
    (w now later : ℕ) → now / w * w ≤ later → later < now / w * w + w → later / w ≡ now / w
same_quotient w now later from to = div-eq_of_lt-le w from (
    subst (λ n. later < n) (sym (add-mul (now / w) 1 w ∙ ap (λ n. now / w * w + n) (one-mul w))) to)

-- The window of a rule with at least one second contains the instant that it is taken at, is as
-- long as the rule says, and is the window of every instant in it.
pub window_lem :
    (now seconds : ℕ)
    → 1 ≤ seconds
    → (window_start now seconds ≤ now)
      × (now < window_end now seconds)
      × (window_end now seconds ≡ window_start now seconds + seconds * 1_000_000)
      × ((later : ℕ)
          → window_start now seconds ≤ later
          → later < window_end now seconds
          → window_start later seconds ≡ window_start now seconds)
unfolding window_start window_end
window_lem now seconds h = (
  div-mul-le_self now (timedelta seconds),
  lt-div-mul-add (omega (arith, h)),
  refl,
  λ later from to.
      ap (λ q. q * timedelta seconds) (same_quotient (timedelta seconds) now later from to),
)

-- The status is of a rule whose window, at most so long, is that of `now`.
abbrev pub IsWithin : (now longest : ℕ) → RateLimitStatus → Type 0
IsWithin now longest status =
    (seconds : ℕ) × (1 ≤ seconds) × (seconds ≤ longest) × (status.reset_at ≡ window_end now seconds)

seconds_left-le :
    (now longest : ℕ) (status : RateLimitStatus)
    → IsWithin now longest status
    → seconds_left now status ≤ longest
unfolding seconds_left window_end
seconds_left-le now longest status (seconds, positive, short, e) =
    omega (arith, (window_lem now seconds positive).0, e)

maximum-le :
    (now longest : ℕ) (statuses : List RateLimitStatus)
    → All (IsWithin now longest) statuses
    → maximum (map (seconds_left now) statuses) ≤ longest
maximum-le now longest [] h = omega arith
maximum-le now longest (s ∷ ss) h =
    ground (arith, seconds_left-le now longest s h.0, maximum-le now longest ss h.1)

All-select {ℓ} :
    {A : Type 0} (P : A → Type ℓ) (test : A → Bool) (xs : List A)
    → All P xs
    → All P (select test xs)
All-select P test [] h = tt
All-select P test (x ∷ xs) h = elim (Bool-cases (test x)) [
  | inl hit ↦ rw hit (h.0, All-select P test xs h.1)
  | inr miss ↦ rw miss (All-select P test xs h.1)
]

-- A client is told to retry exactly if a rule blocks it, after at least one second, and after no
-- more than the longest window.
abbrev pub Fits : (longest : ℕ) → (blocked : List RateLimitStatus) → Option ℕ → Type 0
Fits longest [] retry_after = retry_after ≡ none
Fits longest (_ ∷ _) retry_after = (n : ℕ) × (retry_after ≡ some n) × (1 ≤ n) × (n ≤ longest)

retry_after_of-Fits :
    (now longest : ℕ) (blocked : List RateLimitStatus)
    → 1 ≤ longest
    → All (IsWithin now longest) blocked
    → Fits longest blocked (retry_after_of now blocked)
retry_after_of-Fits now longest [] positive h = refl
retry_after_of-Fits now longest (s ∷ ss) positive h = (
  max 1 (maximum (map (seconds_left now) (s ∷ ss))),
  refl,
  ground arith,
  ground (arith, maximum-le now longest (s ∷ ss) h),
)

pub status_headers-Fits :
    (policy : RateLimitPolicy) (now longest : ℕ) (statuses : List RateLimitStatus)
    → 1 ≤ longest
    → All (IsWithin now longest) statuses
    → Fits longest (select RateLimitStatus.blocked statuses) (status_headers policy statuses now).1
unfolding status_headers
status_headers-Fits policy now longest [] positive h = refl
status_headers-Fits policy now longest (s ∷ ss) positive h =
    retry_after_of-Fits now longest (select RateLimitStatus.blocked (s ∷ ss)) positive
      (All-select (IsWithin now longest) RateLimitStatus.blocked (s ∷ ss) h)
