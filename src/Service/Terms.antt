-- ===== src/Service/Terms.antt =====
-- ExchangeRequestService, app/services/exchange_request.py: the validation of terms.
use escrow_fx_marketplace.Common.{ℕ, ◌*◌, Bool, true, false, ◌&&◌, Option, none, some, String}
use escrow_fx_marketplace.Domain.Errors.{
  Result, ok, err, not_found, conflict, precondition_failed, invariant_violation, invalid_operation,
}
use escrow_fx_marketplace.Domain.Errors
use escrow_fx_marketplace.Domain.Decimal.{Number, Decimal, finite, infinity, nan, ltb_number}
use escrow_fx_marketplace.Domain.Values.{money_amount, rate_value}
use escrow_fx_marketplace.Domain.Entities.{ExchangeRequest}
use text.Mathlib.Text.{◌==◌ as str_eq}

-- `settings.exchange_request_expiry_minutes`, in microseconds.
abbrev pub request_lifetime : ℕ
request_lifetime = 1440 * 60 * 1_000_000

-- `Rate(value=x) if x is not None else None`
unfoldable pub optional_rate : Option Decimal → Result (Option Number)
optional_rate none = ok none
optional_rate (some value) = Errors.◌>>=◌ (rate_value value) (λ rate. ok (some rate))

-- `minimum is not None and minimum.value > preferred.value`
abbrev pub exceeds : Option Number → Number → Bool
exceeds none preferred = false
exceeds (some minimum) preferred = ltb_number preferred minimum

-- What a request is created or edited with.
pub record Terms : Type 0 where
  pub amount : Number
  pub preferred : Number
  pub minimum : Option Number

-- The validation in front of `create_request`; the codes are normalized.
unfoldable pub creation_terms :
    (from_code to_code : String) (from_amount preferred_rate : Decimal) (min_rate : Option Decimal)
    → Result Terms
unfolding optional_rate
creation_terms from_code to_code from_amount preferred_rate min_rate =
    Errors.◌>>◌ (Errors.refuse_if (str_eq from_code to_code) invariant_violation) (
      Errors.◌>>=◌ (money_amount from_amount) λ amount.
        Errors.◌>>=◌ (rate_value preferred_rate) λ preferred.
          Errors.◌>>=◌ (optional_rate min_rate) λ minimum.
            Errors.◌>>◌ (Errors.refuse_if (exceeds minimum preferred) invariant_violation)
              (ok (record { amount = amount; preferred = preferred; minimum = minimum })))

-- `_validate_amount`. A comparison with a NaN raises.
unfoldable pub validate_amount : Decimal → Number → Number → Result (Unit {0})
validate_amount (finite amount) minimum maximum =
    Errors.◌>>◌ (Errors.refuse_if (ltb_number amount minimum) invariant_violation)
      (Errors.refuse_if (ltb_number maximum amount) invariant_violation)
validate_amount (infinity _) minimum maximum = err invariant_violation
validate_amount nan minimum maximum = err invalid_operation

-- The optional arguments of `update_request` and `relist_request` with the set `fields`: a field
-- that is not in the set keeps its value, and one that is may have been cleared.
pub data Field (A : Type 0) : Type 0 where
  keep : Field A
  set_to : Option A → Field A

pub record Changes : Type 0 where
  pub from_amount : Field Decimal
  pub preferred_rate : Field Decimal
  pub min_rate : Field Decimal

abbrev pub is_kept : Field Decimal → Bool
is_kept keep = true
is_kept (set_to _) = false

-- `if not fields`
abbrev pub changes_nothing : Changes → Bool
changes_nothing c = is_kept c.from_amount && is_kept c.preferred_rate && is_kept c.min_rate

-- `value if name in fields else original`
abbrev pub changed_to : Field Decimal → Option Decimal → Option Decimal
changed_to keep original = original
changed_to (set_to value) original = value

-- `if new_amount is None or new_preferred is None: raise`
unfoldable pub required : Option Decimal → Result Decimal
required none = err invariant_violation
required (some value) = ok value

abbrev pub as_decimal : Option Number → Option Decimal
as_decimal none = none
as_decimal (some n) = some (finite n)

-- The validation of changed terms against the currency's bounds.
unfoldable pub changed_terms : Changes → ExchangeRequest → (minimum maximum : Number) → Result Terms
unfolding required optional_rate
changed_terms c request minimum maximum =
    Errors.◌>>=◌ (required (changed_to c.from_amount (some (finite request.from_amount)))) λ amount.
      Errors.◌>>=◌ (required (changed_to c.preferred_rate (some (finite request.preferred_rate))))
        λ preferred_rate. Errors.◌>>◌ (validate_amount amount minimum maximum) (
          Errors.◌>>=◌ (rate_value preferred_rate) λ preferred.
            Errors.◌>>=◌ (optional_rate (changed_to c.min_rate (as_decimal request.min_rate)))
              λ lowest.
                Errors.◌>>◌ (Errors.refuse_if (exceeds lowest preferred) invariant_violation) (
                  Errors.◌>>=◌ (money_amount amount) λ money.
                    ok (record { amount = money; preferred = preferred; minimum = lowest })))
