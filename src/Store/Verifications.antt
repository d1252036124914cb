-- ===== src/Store/Verifications.antt =====
-- SqlAlchemyKycVerificationRepository.
use escrow_fx_marketplace.Common.{
  ℕ, Bool, true, false, not, ◌&&◌, Option, none, some, String, List, [], ◌∷◌, ◌++◌, any, find,
  select, take, leb, ◌==◌,
}
use escrow_fx_marketplace.Domain.Errors.{
  Result, ok, err, not_found, conflict, multiple_results_found,
}
use escrow_fx_marketplace.Domain.Identity.{KycVerification, KycVerificationStatus}
use escrow_fx_marketplace.Store.Db.{Db}
use escrow_fx_marketplace.Store.Action.{
  Action, ◌>>=◌, ◌>>◌, pure, reads, fetch, lift, write, write_if, wait,
}
use escrow_fx_marketplace.Store.Table.{sort_by, update_where}
use text.Mathlib.Text.{◌==◌ as str_eq}

abbrev pub verification_by_id : ℕ → Db → Option KycVerification
verification_by_id id d = find (λ v. v.id == id) d.verifications

-- The identifier is unique; the provider's reference is indexed and not unique.
abbrev pub is_new_verification : KycVerification → Db → Bool
is_new_verification v d = not (any (λ x. x.id == v.id) d.verifications)

unfoldable pub add : KycVerification → Action KycVerification
add v = do
  write_if (is_new_verification v) conflict
      (λ d. record d { verifications = d.verifications ++ v ∷ [] })
  pure v

unfoldable pub get : ℕ → Action KycVerification
get id = fetch (verification_by_id id) not_found

unfoldable pub get_for_update : ℕ → Action KycVerification
get_for_update id = do wait; fetch (verification_by_id id) not_found

abbrev pub first : {A : Type 0} → List A → Option A
first [] = none
first (x ∷ xs) = some x

-- `get_latest_for_user`, and what its NotFoundError is caught for.
abbrev pub latest_for_user : ℕ → Db → Option KycVerification
latest_for_user user_id d = first (
    sort_by (λ a b. leb b.created_at a.created_at)
      (select (λ v. v.user_id == user_id) d.verifications))

unfoldable pub get_latest_for_user : ℕ → Action KycVerification
get_latest_for_user user_id = fetch (latest_for_user user_id) not_found

-- `scalar_one_or_none`, and the NotFoundError.
abbrev pub sole : List KycVerification → Result KycVerification
sole [] = err not_found
sole (v ∷ []) = ok v
sole (_ ∷ _ ∷ _) = err multiple_results_found

unfoldable pub get_by_provider_reference : String → Action KycVerification
get_by_provider_reference reference = do
  vs ← reads (λ d. select (λ v. str_eq v.provider_reference_id reference) d.verifications)
  lift (sole vs)

abbrev pub same_status : KycVerificationStatus → KycVerificationStatus → Bool
same_status KycVerificationStatus.pending KycVerificationStatus.pending = true
same_status KycVerificationStatus.verified KycVerificationStatus.verified = true
same_status KycVerificationStatus.rejected KycVerificationStatus.rejected = true
same_status KycVerificationStatus.requires_review KycVerificationStatus.requires_review = true
same_status _ _ = false

unfoldable pub list_by_status : KycVerificationStatus → (limit : ℕ) → Action (List KycVerification)
list_by_status status limit = reads (λ d. take limit (
    sort_by (λ a b. leb a.submitted_at b.submitted_at)
      (select (λ v. same_status v.status status) d.verifications)))

unfoldable pub submitted_since : (user_id since limit : ℕ) → Db → List KycVerification
submitted_since user_id since limit d = take limit (
    sort_by (λ a b. leb b.submitted_at a.submitted_at)
      (select (λ v. v.user_id == user_id && leb since v.submitted_at) d.verifications))

unfoldable pub list_submitted_since : (user_id since limit : ℕ) → Action (List KycVerification)
unfolding submitted_since
list_submitted_since user_id since limit = reads (submitted_since user_id since limit)

-- `list_admin`
abbrev pub has_status : Option KycVerificationStatus → KycVerification → Bool
has_status none v = true
has_status (some status) v = same_status v.status status

unfoldable pub list_admin : Option KycVerificationStatus → Action (List KycVerification)
list_admin status = reads (λ d.
    select (has_status status) (sort_by (λ a b. leb b.created_at a.created_at) d.verifications))

abbrev pub save_verification : KycVerification → Db → Db
save_verification v d = record d {
  verifications =
      update_where (λ x. x.id == v.id)
        (λ x. record v { id = x.id; user_id = x.user_id; created_at = x.created_at })
        d.verifications;
}

unfoldable pub update : KycVerification → Action KycVerification
update v = do _ ← fetch (verification_by_id v.id) not_found; write (save_verification v); pure v
