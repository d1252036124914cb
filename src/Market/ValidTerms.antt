-- ===== src/Market/ValidTerms.antt =====
-- What the validation of terms makes sure of: Money and Rate of app/domain/value_objects.py, and the
-- checks of app/services/exchange_request.py on what a request is created or edited with.
use escrow_fx_marketplace.Common.{
  ◌≡◌, refl, sym, ◌∙◌, subst, arith, ap, Bool, true, false, Option, none, some, String,
}
use escrow_fx_marketplace.Domain.Errors.{
  Result, ok, err, AppError, invariant_violation, ◌>>=◌, ◌>>◌, refuse_if,
}
use escrow_fx_marketplace.Domain.Decimal.{
  Number, Decimal, finite, infinity, nan, ltb_number, zero_number, round_to_context,
}
use escrow_fx_marketplace.Domain.Values.{normalize_decimal, money_amount, rate_value}
use escrow_fx_marketplace.Domain.Entities.{ExchangeRequest}
use escrow_fx_marketplace.Service.Terms.{
  Terms, Changes, changed_to, as_decimal, required, creation_terms, changed_terms, optional_rate,
  validate_amount, exceeds,
}
use text.Mathlib.Text.{◌==◌ as str_eq}

-- A finite number, rounded to the context and not negative.
pub record IsMoney (value : Decimal) (amount : Number) : Type 0 where
  pub number : Number
  pub is_finite : value ≡ finite number
  pub normalized : amount ≡ round_to_context number
  pub not_negative : ltb_number amount zero_number ≡ false

-- A finite number, rounded to the context and greater than zero.
pub record IsRate (value : Decimal) (rate : Number) : Type 0 where
  pub number : Number
  pub is_finite : value ≡ finite number
  pub normalized : rate ≡ round_to_context number
  pub positive : ltb_number zero_number rate ≡ true

-- The minimum rate, where there is one, is a rate not above the preferred one.
abbrev pub IsMinimum : Option Decimal → (preferred : Number) → Option Number → Type 0
IsMinimum none preferred none = Unit {0}
IsMinimum none preferred (some _) = ⊥
IsMinimum (some _) preferred none = ⊥
IsMinimum (some value) preferred (some minimum) =
    IsRate value minimum × (ltb_number preferred minimum ≡ false)

module _ {A B : Type 0} where
  bind-ok :
      (r : Result A) (f : A → Result B) {b : B}
      → (r >>= f) ≡ ok b
      → (a : A) × (r ≡ ok a) × (f a ≡ ok b)
  bind-ok (ok a) f e = (a, refl, e)
  bind-ok (err x) f e = absurd (cc)

refuse-ok :
    {B : Type 0} (test : Bool) (x : AppError) (k : Result B) {b : B}
    → (refuse_if test x >> k) ≡ ok b
    → (test ≡ false) × (k ≡ ok b)
refuse-ok true x k e = absurd (cc)
refuse-ok false x k e = (refl, e)

normalize_decimal-ok :
    (value : Decimal) {n : Number}
    → normalize_decimal value ≡ ok n
    → (number : Number) × (value ≡ finite number) × (n ≡ round_to_context number)
unfolding normalize_decimal
normalize_decimal-ok (finite m) e = (m, refl, cc)
normalize_decimal-ok (infinity _) e = absurd (cc)
normalize_decimal-ok nan e = absurd (cc)

money_amount-IsMoney :
    (value : Decimal) {amount : Number} → money_amount value ≡ ok amount → IsMoney value amount
unfolding money_amount
money_amount-IsMoney value {amount} e =
    let (n, made, checked) = bind-ok (normalize_decimal value) _ e in
    let (not_negative, given) = refuse-ok _ _ (ok n) checked in
    let (number, is_finite, normalized) = normalize_decimal-ok value made in
    let same : n ≡ amount = cc in
    record {
      number = number;
      is_finite = is_finite;
      normalized = sym same ∙ normalized;
      not_negative = rw same at not_negative;
    }

pub rate_value-IsRate :
    (value : Decimal) {rate : Number} → rate_value value ≡ ok rate → IsRate value rate
unfolding rate_value
rate_value-IsRate value {rate} e =
    let (n, made, checked) = bind-ok (normalize_decimal value) _ e in
    let (positive, given) = refuse-ok _ _ (ok n) checked in
    let (number, is_finite, normalized) = normalize_decimal-ok value made in
    let same : n ≡ rate = cc in
    record {
      number = number;
      is_finite = is_finite;
      normalized = sym same ∙ normalized;
      positive = ground (arith, rw same at positive);
    }

optional_rate-IsMinimum :
    (value : Option Decimal) (preferred : Number) (minimum : Option Number)
    → optional_rate value ≡ ok minimum
    → exceeds minimum preferred ≡ false
    → IsMinimum value preferred minimum
unfolding optional_rate
optional_rate-IsMinimum none preferred none e below = tt
optional_rate-IsMinimum none preferred (some _) e below = absurd (cc)
optional_rate-IsMinimum (some value) preferred minimum e below =
    let (rate, made, given) = bind-ok (rate_value value) _ e in
    let same : some rate ≡ minimum = cc in
    subst (IsMinimum (some value) preferred) same
      (rate_value-IsRate value made, subst (λ m. exceeds m preferred ≡ false) (sym same) below)

-- The terms of a new request: two codes that differ, an amount of money, a preferred rate, and a
-- minimum not above it.
pub record IsListing (from_code to_code : String) (amount preferred : Decimal)
    (minimum : Option Decimal) (terms : Terms) : Type 0 where
  pub different : str_eq from_code to_code ≡ false
  pub money : IsMoney amount terms.amount
  pub rate : IsRate preferred terms.preferred
  pub lowest : IsMinimum minimum terms.preferred terms.minimum

pub creation_terms-IsListing :
    (from_code to_code : String) (amount preferred : Decimal) (minimum : Option Decimal)
    {terms : Terms}
    → creation_terms from_code to_code amount preferred minimum ≡ ok terms
    → IsListing from_code to_code amount preferred minimum terms
unfolding creation_terms
creation_terms-IsListing from_code to_code amount preferred minimum {terms} e =
    let (different, e₁) = refuse-ok _ _ _ e in
    let (money, is_money, e₂) = bind-ok (money_amount amount) _ e₁ in
    let (rate, is_rate, e₃) = bind-ok (rate_value preferred) _ e₂ in
    let (lowest, is_lowest, e₄) = bind-ok (optional_rate minimum) _ e₃ in
    let (below, given) = refuse-ok _ _ _ e₄ in
    let made : Terms = record { amount = money; preferred = rate; minimum = lowest } in
    let same : made ≡ terms = cc in
    subst (IsListing from_code to_code amount preferred minimum) same (record {
      different = different;
      money = money_amount-IsMoney amount is_money;
      rate = rate_value-IsRate preferred is_rate;
      lowest = optional_rate-IsMinimum minimum rate lowest is_lowest below;
    })

-- The terms that changes make of a request's: an amount of money within the bounds, a preferred
-- rate, and a minimum not above it, each as changed or as it was.
pub record IsChange (changes : Changes) (original : ExchangeRequest) (minimum maximum : Number)
    (terms : Terms) : Type 0 where
  pub number : Number
  pub preferred : Decimal
  pub the_amount :
      changed_to changes.from_amount (some (finite original.from_amount)) ≡ some (finite number)
  pub not_too_small : ltb_number number minimum ≡ false
  pub not_too_large : ltb_number maximum number ≡ false
  pub money : IsMoney (finite number) terms.amount
  pub the_rate :
      changed_to changes.preferred_rate (some (finite original.preferred_rate)) ≡ some preferred
  pub rate : IsRate preferred terms.preferred
  pub lowest :
      IsMinimum
        (changed_to changes.min_rate (as_decimal original.min_rate))
        terms.preferred
        terms.minimum

required-ok : (value : Option Decimal) {d : Decimal} → required value ≡ ok d → value ≡ some d
unfolding required
required-ok none e = absurd (cc)
required-ok (some d) e = cc

validate_amount-ok :
    (value : Decimal) (minimum maximum : Number)
    → validate_amount value minimum maximum ≡ ok tt
    → (n : Number) × (value ≡ finite n)
      × (ltb_number n minimum ≡ false)
      × (ltb_number maximum n ≡ false)
unfolding validate_amount
validate_amount-ok (finite n) minimum maximum e =
    let (small, e₁) = refuse-ok (ltb_number n minimum) _ _ e in
    (n, refl, small, large (ltb_number maximum n) invariant_violation e₁)
  where
    large : (test : Bool) (x : AppError) → refuse_if test x ≡ ok tt → test ≡ false
    large true x e = absurd (cc)
    large false x e = refl
validate_amount-ok (infinity _) minimum maximum e = absurd (cc)
validate_amount-ok nan minimum maximum e = absurd (cc)

pub changed_terms-IsChange :
    (changes : Changes) (original : ExchangeRequest) (minimum maximum : Number) {terms : Terms}
    → changed_terms changes original minimum maximum ≡ ok terms
    → IsChange changes original minimum maximum terms
unfolding changed_terms
changed_terms-IsChange changes original minimum maximum {terms} e =
    let (amount, has_amount, e₁) = bind-ok (required _) _ e in
    let (preferred, has_rate, e₂) = bind-ok (required _) _ e₁ in
    let (_, valid, e₃) = bind-ok (validate_amount amount minimum maximum) _ e₂ in
    let (rate, is_rate, e₄) = bind-ok (rate_value preferred) _ e₃ in
    let (lowest, is_lowest, e₅) = bind-ok (optional_rate _) _ e₄ in
    let (below, e₆) = refuse-ok _ _ _ e₅ in
    let (money, is_money, given) = bind-ok (money_amount amount) _ e₆ in
    let (n, is_finite, small, large) = validate_amount-ok amount minimum maximum valid in
    let made : Terms = record { amount = money; preferred = rate; minimum = lowest } in
    let same : made ≡ terms = cc in
    subst (IsChange changes original minimum maximum) same (record {
      number = n;
      preferred = preferred;
      the_amount = required-ok _ has_amount ∙ ap (λ v. some v) is_finite;
      not_too_small = small;
      not_too_large = large;
      money = subst (λ v. IsMoney v money) is_finite (money_amount-IsMoney amount is_money);
      the_rate = required-ok _ has_rate;
      rate = rate_value-IsRate preferred is_rate;
      lowest = optional_rate-IsMinimum _ rate lowest is_lowest below;
    })
