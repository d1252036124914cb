-- ===== src/Domain/Rounding.antt =====
-- The digits that the precision of the decimal context leaves out, for `_normalize_decimal`.
use native.Mathlib.Nat.{mul_assoc}
use native.Mathlib.Omega.{pow_step}
use escrow_fx_marketplace.Common.{
  ℕ, zero, suc, ◌≡◌, ◌∙◌, ap, ◌*◌, ◌/◌, ◌^◌, ◌≤◌, ◌<◌, arith, ltb, Bool-cases, inl, inr,
}
use escrow_fx_marketplace.Domain.Decimal.{excess_digits, precision_bound}

scaled : (c y z : ℕ) → z ≡ 10 * y → c / 10 < y → c < z
scaled c y z e h = omega arith

power_step : (c k x : ℕ) → c / 10 < 10 ^ k * x → c < 10 ^ suc k * x
power_step c k x h =
    scaled c (10 ^ k * x) (10 ^ suc k * x)
      (ap (λ (p : ℕ). p * x) (pow_step 10 k) ∙ mul_assoc 10 (10 ^ k) x) h

-- The fuel is enough: without the digits in excess a coefficient fits the precision.
excess_digits_lem : (fuel c : ℕ) → c ≤ fuel → c < 10 ^ excess_digits fuel c * precision_bound
unfolding excess_digits
excess_digits_lem zero c h = omega arith
excess_digits_lem (suc fuel) c h = elim (Bool-cases (ltb c precision_bound)) [
  | inl fits ↦ rw (excess_digits, fits) (ground (arith, fits))
  | inr long ↦
      rw (excess_digits, long)
        (power_step c (excess_digits fuel (c / 10)) precision_bound
          (excess_digits_lem fuel (c / 10) (ground (arith, long))))
]
