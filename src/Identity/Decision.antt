-- ===== src/Identity/Decision.antt =====
-- `_apply_decision_policy`, `_match_flag` and `_review_reason`.
use escrow_fx_marketplace.Common.{
  ◌≡◌, ◌↔◌, ◌⊎◌, refl, sym, ◌∙◌, Bool, true, false, ◌&&◌, Option, none, some, String, List, [], ◌∷◌,
  arith, if◌then◌else◌, Bool-cases, inl, inr,
}
use escrow_fx_marketplace.Domain.Identity.{
  KycVerificationStatus, RequiredMatches, FieldMatchSummary, KycProviderResult, is_verified,
}
use mathlib.Core.Bool.{false≢true}
use text.Mathlib.Text.{◌==◌ as str_eq}

abbrev first_flag : Option Bool → Option Bool → Option Bool
first_flag none rest = rest
first_flag (some b) rest = some b

-- `_match_flag`
abbrev pub match_flag : FieldMatchSummary → List String → Option Bool
match_flag summary [] = none
match_flag summary (key ∷ keys) = first_flag (summary.flag key) (match_flag summary keys)

abbrev pub required_matches : FieldMatchSummary → RequiredMatches
required_matches summary = record {
  first_name = match_flag summary ("first_name" ∷ "firstName" ∷ []);
  last_name = match_flag summary ("last_name" ∷ "lastName" ∷ []);
  date_of_birth = match_flag summary ("date_of_birth" ∷ "dateOfBirth" ∷ []);
}

-- `value is True`
abbrev is_true : Option Bool → Bool
is_true (some true) = true
is_true _ = false

abbrev pub all_match : RequiredMatches → Bool
all_match r = is_true r.first_name && is_true r.last_name && is_true r.date_of_birth

-- `_apply_decision_policy`
unfoldable pub apply_decision_policy : KycProviderResult → KycProviderResult
apply_decision_policy result =
    if is_verified result.status
    then (if all_match (required_matches result.field_match_summary)
        then result
        else record result {
          status = KycVerificationStatus.requires_review;
          field_match_summary = record result.field_match_summary {
            policy_reason = some "required_identity_fields_incomplete";
            required_matches = some (required_matches result.field_match_summary);
          };
        })
    else result

-- `text or default`
abbrev pub text_or : Option String → String → String
text_or none default = default
text_or (some text) default = if str_eq text "" then default else text

-- `_review_reason`
abbrev pub review_reason : FieldMatchSummary → String
review_reason summary = text_or summary.policy_reason "kyc_requires_manual_review"

-- The provider reports a match under the first name of a field, or under the second one where it
-- says nothing under the first.
abbrev pub IsReported : FieldMatchSummary → (name other : String) → Type 0
IsReported summary name other =
    (summary.flag name ≡ some true)
    ⊎ ((summary.flag name ≡ none) × (summary.flag other ≡ some true))

flag-IsReported :
    (summary : FieldMatchSummary) (name other : String)
    → (is_true (match_flag summary (name ∷ other ∷ [])) ≡ true) ↔ IsReported summary name other
flag-IsReported summary name other = by_flags (summary.flag name) (summary.flag other)
  where
    by_flags :
        (a b : Option Bool)
        → (is_true (first_flag a (first_flag b none)) ≡ true)
          ↔ ((a ≡ some true) ⊎ ((a ≡ none) × (b ≡ some true)))
    by_flags (some true) b = (λ _. inl refl, λ _. refl)
    by_flags (some false) b = (λ h. absurd (false≢true h), λ h. elim h [ inl e ↦ cc | inr p ↦ cc ])
    by_flags none (some true) = (λ _. inr (refl, refl), λ _. refl)
    by_flags none (some false) =
        (λ h. absurd (false≢true h), λ h. elim h [ inl e ↦ cc | inr p ↦ cc ])
    by_flags none none = (λ h. absurd (false≢true h), λ h. elim h [ inl e ↦ cc | inr p ↦ cc ])

both : (a b : Bool) → (a && b) ≡ true → (a ≡ true) × (b ≡ true)
both a b h = ground (arith, h)

-- The three fields that must match.
abbrev pub IsFullMatch : FieldMatchSummary → Type 0
IsFullMatch summary =
    IsReported summary "first_name" "firstName"
    × IsReported summary "last_name" "lastName"
    × IsReported summary "date_of_birth" "dateOfBirth"

all_match-IsFullMatch :
    (summary : FieldMatchSummary)
    → (all_match (required_matches summary) ≡ true) ↔ IsFullMatch summary
all_match-IsFullMatch summary =
    let first = flag-IsReported summary "first_name" "firstName" in
    let last = flag-IsReported summary "last_name" "lastName" in
    let born = flag-IsReported summary "date_of_birth" "dateOfBirth" in
    (
      (λ h.
          let (fl, b) = both _ _ h in let (f, l) = both _ _ fl in (first.0 f, last.0 l, born.0 b)),
      λ h. rw (first.1 h.0, last.1 h.1, born.1 h.2) refl,
    )

-- A result is verified after the policy exactly if the provider verified it and its summary flags
-- the first name, the last name and the date of birth as matches, each under its name in snake case
-- or, where nothing is said under that, in camel case; and then the policy changes nothing.
pub apply_decision_policy-verified :
    (result : KycProviderResult)
    → (is_verified (apply_decision_policy result).status ≡ true) ↔ (
        (is_verified result.status ≡ true)
        × IsFullMatch result.field_match_summary
        × (apply_decision_policy result ≡ result))
unfolding apply_decision_policy
apply_decision_policy-verified result = elim (Bool-cases (is_verified result.status)) [
  | inl yes_ ↦ elim (Bool-cases (all_match (required_matches result.field_match_summary))) [
    | inl match ↦ (
      (λ h. (
        yes_,
        (all_match-IsFullMatch result.field_match_summary).0 match,
        rw (yes_, match) refl,
      )),
      λ h. rw (yes_, match) yes_,
    )
    | inr differ ↦ (
      (λ h. absurd (false≢true (rw (yes_, differ) at h))),
      λ h.
          absurd
            (false≢true (sym differ ∙ (all_match-IsFullMatch result.field_match_summary).1 h.1)),
    )
  ]
  | inr no_ ↦ (
    (λ h. absurd (false≢true (sym no_ ∙ (rw no_ at h)))),
    λ h. absurd (false≢true (sym no_ ∙ h.0)),
  )
]
