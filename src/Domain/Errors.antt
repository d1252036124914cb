-- ===== src/Domain/Errors.antt =====
-- The exceptions of app/domain/exceptions.py by class, and results of code that may raise.
-- The `detail` texts are not modelled.
use escrow_fx_marketplace.Common.{ℕ, Bool, true, false}

pub data AppError : Type 0 where
  authentication_error not_found conflict authorization_error precondition_failed : AppError
  invariant_violation infrastructure_failure : AppError
  rate_limited : (retry_after : ℕ) → AppError
  idempotency_conflict idempotency_in_progress : AppError
  -- Exceptions that are no AppError: decimal.InvalidOperation, MultipleResultsFound, the
  -- AttributeError of a relation that is not there, KeyError and StopIteration, IntegrityError,
  -- ValueError.
  invalid_operation multiple_results_found missing_relation key_error integrity_error value_error :
      AppError

-- What code that may raise returns.
pub data Result {ℓ} (A : Type ℓ) : Type ℓ where
  err : AppError → Result A
  ok : A → Result A

-- `if test: raise error`
abbrev pub refuse_if : Bool → AppError → Result (Unit {0})
refuse_if false _ = ok tt
refuse_if true error = err error

module _ {ℓ κ} {A : Type ℓ} {B : Type κ} where
  infixl 5 ◌>>=◌
  abbrev pub ◌>>=◌ : Result A → (A → Result B) → Result B
  err error >>= next = err error
  ok value >>= next = next value

module _ {κ} {B : Type κ} where
  infixl 5 ◌>>◌
  abbrev pub ◌>>◌ : Result (Unit {0}) → Result B → Result B
  check >> next = check >>= λ _. next
