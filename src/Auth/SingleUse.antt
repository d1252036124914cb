-- ===== src/Auth/SingleUse.antt =====
-- A link in an email works once.
use escrow_fx_marketplace.Common.{
  ℕ, ◌≤◌, ◌≡◌, refl, subst, ap, ◌∙◌, false, Option, none, String, All-weaken,
}
use escrow_fx_marketplace.Domain.Errors.{ok, err, precondition_failed}
use escrow_fx_marketplace.Domain.Entities.{User}
use escrow_fx_marketplace.Domain.Identity.{AuthToken}
use escrow_fx_marketplace.Store.Db.{Db}
use escrow_fx_marketplace.Store.Action.{
  Env, Session, Action, ◌>>=◌, raise, utc_now, transact, begin,
}
use escrow_fx_marketplace.Store.Ensures.{IsSerial, IsOutcome}
use escrow_fx_marketplace.Store.Tokens.{
  TokenTable, tokens_of, is_consumable, consumed_or_none, consume_token,
}
use escrow_fx_marketplace.Auth.Tokens.{
  Security, reset_password, reset_with, verify_email, verify_with,
}
use escrow_fx_marketplace.Auth.Steps.{bind_step, spend, consume_step, find-none}
use escrow_fx_marketplace.Auth.Spent.{IsSpent, reset_spends, verify_spends}

-- The end of an attempt on a spent link.
spent_refused :
    {A : Type 0} (k : ℕ → Option AuthToken → Action A) (table : TokenTable) (token_hash : String)
    (earlier : ℕ) (env : Env) (serial : IsSerial env) (d : Db)
    → ((now : ℕ) (s : Session) → k now none env s ≡ (err precondition_failed, s))
    → earlier ≤ env.clock 0
    → IsSpent token_hash earlier (tokens_of table d)
    → transact (do now ← utc_now; token ← consume_token table token_hash now; k now token) env d
      ≡ (err precondition_failed, d)
unfolding transact utc_now ◌>>=◌
spent_refused k table token_hash earlier env serial d refuses later spent =
    let now : ℕ = env.clock 0 in
    let s : Session = record (begin d) { ticks = 1 } in
    let t : Session = record s { db = spend table token_hash now d; waits = 1 } in
    ap (λ r. (r.0, r.1.base))
      (bind_step (consume_token table token_hash now) (k now) env s t none (
          consume_step env serial s table token_hash now
          ∙ ap (λ o. (ok (consumed_or_none now o), t))
              (find-none (is_consumable token_hash now) (tokens_of table d) (
                All-weaken _ (λ x. is_consumable token_hash now x ≡ false) (λ x h. h now later)
                  (tokens_of table d) spent)))
        ∙ refuses now t)

module _ (security : Security) (env later : Env) (serial : IsSerial env) (serial' : IsSerial later)
    (d e : Db) (token : String) (order : env.clock 0 ≤ later.clock 0) where
  -- When transactions run one after the other, a link that has reset a password is refused the next
  -- time, whatever password comes with it, and that attempt changes nothing.
  pub reset_password-once :
      (password password' : String)
      → transact (reset_password security token password) env d ≡ (ok tt, e)
      → transact (reset_password security token password') later e ≡ (err precondition_failed, e)
  unfolding reset_password
  reset_password-once password password' done =
      spent_refused (λ now token. reset_with security now password' token) TokenTable.password_reset
        (security.hash_auth_token token) (env.clock 0) later serial' e
        (λ now s. unfold reset_with in unfold raise in refl) order
        (subst
          (λ r.
            IsOutcome (λ _. Unit {0})
              (λ _ e. IsSpent (security.hash_auth_token token) (env.clock 0) e.reset_tokens) r.0
              r.1)
          done (reset_spends security env serial d token password))

  -- When transactions run one after the other, a link that has verified an email is refused the next
  -- time, and that attempt changes nothing.
  pub verify_email-once :
      (user : User)
      → transact (verify_email security token) env d ≡ (ok user, e)
      → transact (verify_email security token) later e ≡ (err precondition_failed, e)
  unfolding verify_email
  verify_email-once user done =
      spent_refused (λ now token. verify_with now token) TokenTable.email_verification
        (security.hash_auth_token token) (env.clock 0) later serial' e
        (λ now s. unfold verify_with in unfold raise in refl) order
        (subst
          (λ r.
            IsOutcome (λ _. Unit {0})
              (λ _ e. IsSpent (security.hash_auth_token token) (env.clock 0) e.email_tokens) r.0
              r.1)
          done (verify_spends security env serial d token))
