-- ===== src/Domain/Decimal.antt =====
-- `decimal.Decimal` of the standard library, as far as the services use it: a finite number by
-- its coefficient and scale (coefficient / 10 ^ scale), an infinity, or a NaN. Two finite numbers
-- are compared by value, so trailing zeros, which `normalize` strips, are not kept apart.
use escrow_fx_marketplace.Common.{
  ℕ, zero, suc, ◌+◌, ◌-◌, ◌*◌, ◌/◌, ◌%◌, ◌^◌, Bool, true, false, ltb, leb, ◌==◌, if◌then◌else◌, ℤ,
  pos, negsuc, pos_part, neg_part, sub_ℕ, ◌*ℤ◌,
}

pub record Number : Type 0 where
  pub coefficient : ℤ
  pub scale : ℕ

pub data Decimal : Type 0 where
  finite : Number → Decimal
  infinity : Bool → Decimal
  nan : Decimal

-- What a comparison adds up on its left: one side's positive and the other's negative part, both
-- at the common scale.
abbrev pub weight : Number → Number → ℕ
weight a b = pos_part a.coefficient * 10 ^ b.scale + neg_part b.coefficient * 10 ^ a.scale

-- `a < b`, `a == b`
abbrev pub ltb_number : Number → Number → Bool
ltb_number a b = ltb (weight a b) (weight b a)

abbrev pub eq_number : Number → Number → Bool
eq_number a b = weight a b == weight b a

abbrev pub zero_number : Number
zero_number = record { coefficient = pos 0; scale = 0 }

-- The default context has 28 digits.
abbrev pub precision_bound : ℕ
precision_bound = 10 ^ 28

-- The number of digits of a coefficient beyond the precision.
unfoldable pub excess_digits : ℕ → ℕ → ℕ
excess_digits zero c = 0
excess_digits (suc fuel) c = elim (ltb c precision_bound) [
  | true ↦ 0
  | false ↦ suc (excess_digits fuel (c / 10))
]

-- ROUND_HALF_EVEN of a coefficient at a power of ten.
unfoldable pub round_half_even : ℕ → ℕ → ℕ
round_half_even c p =
    if ltb (2 * (c % p)) p
    then c / p
    else if ltb p (2 * (c % p))
    then c / p + 1
    else c / p + (c / p) % 2

unfoldable pub with_sign : ℤ → ℕ → ℤ
with_sign (pos _) m = pos m
with_sign (negsuc _) m = sub_ℕ 0 m

-- The result of an operation, rounded to the context. A coefficient that loses more digits than
-- it has behind the point gets them back as zeros.
unfoldable pub round_to_context : Number → Number
unfolding excess_digits round_half_even with_sign
round_to_context n =
    let c : ℕ = pos_part n.coefficient + neg_part n.coefficient in
    let k : ℕ = excess_digits c c in
    let q : ℕ = round_half_even c (10 ^ k) in
    if leb k n.scale
    then record { coefficient = with_sign n.coefficient q; scale = n.scale - k }
    else record { coefficient = with_sign n.coefficient (q * 10 ^ (k - n.scale)); scale = 0 }

-- `a * b`
unfoldable pub mul_number : Number → Number → Number
unfolding round_to_context ◌*ℤ◌
mul_number a b =
    round_to_context
      (record { coefficient = a.coefficient *ℤ b.coefficient; scale = a.scale + b.scale })
