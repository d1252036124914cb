-- ===== src/Identity/Lifecycle.antt =====
-- Every sequence of transactions on verifications.
use escrow_fx_marketplace.Common.{ℕ, ◌≡◌, sym, subst, String, List}
use escrow_fx_marketplace.Domain.Errors.{Result}
use escrow_fx_marketplace.Domain.Identity.{KycIdType, KycProviderRequest, KycProviderResult}
use escrow_fx_marketplace.Store.Db.{Db}
use escrow_fx_marketplace.Store.Action.{Env, transact}
use escrow_fx_marketplace.Store.Ensures.{IsSerial}
use escrow_fx_marketplace.Identity.Kyc.{KycSettings}
use escrow_fx_marketplace.Identity.Reviews.{approve_review, add_review_note, reject_review}
use escrow_fx_marketplace.Identity.Checks.{
  Submission, process_youverify_webhook, reconcile_pending, submit_identity_check,
}
use escrow_fx_marketplace.Identity.Progress.{Progress, Progress-refl, Progress-trans}
use escrow_fx_marketplace.Identity.Reviewed.{
  approve_review-Progress, reject_review-Progress, add_review_note-Progress,
}
use escrow_fx_marketplace.Identity.Checked.{
  process_youverify_webhook-Progress, reconcile_pending-Progress, submit_identity_check-Progress,
}

-- One transaction of the service, whether it commits or raises.
pub data KycStep (d e : Db) : Type 0 where
  submit :
      (env : Env)
      → IsSerial env
      → (hash : KycIdType → List ℕ → String) (settings : KycSettings)
        (verify : KycProviderRequest → Result KycProviderResult) (s : Submission)
      → e ≡ (transact (submit_identity_check hash settings verify s) env d).1
      → KycStep d e
  approve :
      (env : Env)
      → IsSerial env
      → (id reviewer : ℕ) → e ≡ (transact (approve_review id reviewer) env d).1
      → KycStep d e
  note :
      (env : Env)
      → IsSerial env
      → (id reviewer : ℕ) (text : String)
      → e ≡ (transact (add_review_note id reviewer text) env d).1
      → KycStep d e
  reject :
      (env : Env)
      → IsSerial env
      → (id reviewer : ℕ) (reason : String)
      → e ≡ (transact (reject_review id reviewer reason) env d).1
      → KycStep d e
  webhook :
      (env : Env)
      → IsSerial env
      → (reference : Result String) (result : KycIdType → Result KycProviderResult)
      → e ≡ (transact (process_youverify_webhook reference result) env d).1
      → KycStep d e
  reconcile :
      (env : Env)
      → IsSerial env
      → (retrieve : String → KycIdType → Result KycProviderResult) (batch_size : ℕ)
      → e ≡ (transact (reconcile_pending retrieve batch_size) env d).1
      → KycStep d e

pub data KycReach (d : Db) : Db → Type 0 where
  here : KycReach d d
  next : {e f : Db} → KycReach d e → KycStep e f → KycReach d f

step-Progress : (d e : Db) → KycStep d e → Progress d e
step-Progress d e (submit env serial hash settings verify s eq) =
    subst (Progress d) (sym eq) (submit_identity_check-Progress d env serial hash settings verify s)
step-Progress d e (approve env serial id reviewer eq) =
    subst (Progress d) (sym eq) (approve_review-Progress d env serial id reviewer)
step-Progress d e (note env serial id reviewer text eq) =
    subst (Progress d) (sym eq) (add_review_note-Progress d env serial id reviewer text)
step-Progress d e (reject env serial id reviewer reason eq) =
    subst (Progress d) (sym eq) (reject_review-Progress d env serial id reviewer reason)
step-Progress d e (webhook env serial reference result eq) =
    subst (Progress d) (sym eq) (process_youverify_webhook-Progress d env serial reference result)
step-Progress d e (reconcile env serial retrieve batch_size eq) =
    subst (Progress d) (sym eq) (reconcile_pending-Progress d env serial retrieve batch_size)

-- Over every sequence of submissions, reviews, webhooks and reconciliations, run one after the
-- other, each succeeding or not: a verification is never lost, a pending one may take any status,
-- one under review can only be decided, and a verified or rejected one keeps its status.
pub KycReach-Progress : (d e : Db) → KycReach d e → Progress d e
KycReach-Progress d _ here = Progress-refl d
KycReach-Progress d f (next {e = e} r s) =
    Progress-trans d e f (KycReach-Progress d e r) (step-Progress e f s)
