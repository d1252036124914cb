-- ===== src/Domain/Values.antt =====
-- app/domain/value_objects.py: construction of Money and Rate, which validates and normalises.
use escrow_fx_marketplace.Common.{not}
use escrow_fx_marketplace.Domain.Decimal.{
  Number, Decimal, finite, ltb_number, zero_number, round_to_context,
}
use escrow_fx_marketplace.Domain.Errors.{
  Result, ok, err, ◌>>=◌, ◌>>◌, refuse_if, invariant_violation,
}

-- `_normalize_decimal`
unfoldable pub normalize_decimal : Decimal → Result Number
unfolding round_to_context
normalize_decimal (finite n) = ok (round_to_context n)
normalize_decimal _ = err invariant_violation

-- `Money(amount, code).amount`; the code is made upper-case and not used by the callers.
unfoldable pub money_amount : Decimal → Result Number
unfolding normalize_decimal
money_amount amount = do
  normalized ← normalize_decimal amount
  refuse_if (ltb_number normalized zero_number) invariant_violation
  ok normalized

-- `Rate(value).value`
unfoldable pub rate_value : Decimal → Result Number
unfolding normalize_decimal
rate_value value = do
  normalized ← normalize_decimal value
  refuse_if (not (ltb_number zero_number normalized)) invariant_violation
  ok normalized
