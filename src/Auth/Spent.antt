-- ===== src/Auth/Spent.antt =====
-- The operations that use a link leave it spent.
use escrow_fx_marketplace.Common.{
  ℕ, ◌≤◌, ◌≡◌, refl, sym, subst, ap, ◌∙◌, false, Option, none, some, String, List, [], ◌∷◌, All,
  Bool-cases, inl, inr, arith,
}
use escrow_fx_marketplace.Domain.Entities.{User}
use escrow_fx_marketplace.Domain.Identity.{AuthToken}
use escrow_fx_marketplace.Store.Db.{Db, Payload}
use escrow_fx_marketplace.Store.Action.{Env, Session, Action, pure, raise, commit, transact}
use escrow_fx_marketplace.Store.Ensures.{
  Ensures, returned, IsSerial, fetch-Ensures, write_if-Ensures, write_if_last-Ensures,
  utc_now-Ensures, uuid4-Ensures, pure-Ensures, Ends, ended, failed, Ends-bind, Ends-then,
  raise_if-Ends, utc_now-Ends, commit-Ends, transact-Ends, IsOutcome,
}
use escrow_fx_marketplace.Store.Table.{update_where}
use escrow_fx_marketplace.Store.Users
use escrow_fx_marketplace.Store.Tokens.{
  TokenTable, tokens_of, is_consumable, consumed, consume_token,
}
use escrow_fx_marketplace.Store.Outbox.{publish}
use escrow_fx_marketplace.Market.LockedUsers.{lock_user}
use escrow_fx_marketplace.Auth.Tokens.{
  Security, reset_password, reset_with, verify_email, verify_with, mark_verified,
}
use escrow_fx_marketplace.Auth.Steps.{consume_step}

-- No token of the hash can be consumed any more.
abbrev pub IsSpent : (token_hash : String) (now : ℕ) → List AuthToken → Type 0
IsSpent token_hash now tokens =
    All (λ x. (later : ℕ) → now ≤ later → is_consumable token_hash later x ≡ false) tokens

IsSpent-after :
    (token_hash : String) (now : ℕ) (tokens : List AuthToken)
    → IsSpent token_hash now (update_where (is_consumable token_hash now) (consumed now) tokens)
IsSpent-after token_hash now [] = tt
IsSpent-after token_hash now (x ∷ tokens) = (
  elim (Bool-cases (is_consumable token_hash now x)) [
    | inl hit ↦ rw hit λ later h. ground arith
    | inr miss ↦ rw miss λ later h. ground (arith, miss, h)
  ],
  IsSpent-after token_hash now tokens,
)

abbrev pub SameTokens : (before after : Db) → Type 0
SameTokens before after =
    (after.email_tokens ≡ before.email_tokens) × (after.reset_tokens ≡ before.reset_tokens)

module _ {I : Db → Type 0} (env : Env) where
  publish-tokens :
      (payload : Payload) (aggregate_id : ℕ) (recipient : Option ℕ) (s : Session)
      → I s.base
      → Ensures I (λ _ d. SameTokens s.db d) (publish payload aggregate_id recipient env s)
  unfolding publish
  publish-tokens payload aggregate_id recipient s i =
      utc_now-Ensures _ s
        (uuid4-Ensures _ _ (write_if_last-Ensures env _ _ _ _ i λ _. (refl, refl)))

  save_user-tokens :
      (user : User) (s : Session)
      → I s.base
      → Ensures I (λ _ d. SameTokens s.db d) (Users.update user env s)
  unfolding Users.update
  save_user-tokens user s i =
      fetch-Ensures _ _ _ s i
        λ _ _. write_if-Ensures _ _ _ _ s i λ _. pure-Ensures env user _ i (refl, refl)

  mark_verified-tokens :
      (now : ℕ) (user : User) (s : Session)
      → I s.base
      → Ensures I (λ _ d. SameTokens s.db d) (mark_verified now user env s)
  unfolding mark_verified
  mark_verified-tokens now user s i = by_mark user.email_verified_at
    where
      by_mark :
          (o : Option ℕ)
          → Ensures I
              (λ _ d. SameTokens s.db d)
              ((elim o as (λ _. Action User) [
                | none ↦
                    Users.update (record user { email_verified_at = some now; updated_at = now })
                | some _ ↦ pure user
              ])
                env s)
      by_mark none = save_user-tokens _ s i
      by_mark (some t) = pure-Ensures env user s i (refl, refl)

commit_last :
    {I : Db → Type 0} {R : Unit {0} → Db → Type 0} (env : Env) (s : Session)
    → R tt s.db
    → Ends I R (commit env s)
unfolding commit
commit_last env s r = ended r

module _ (security : Security) (env : Env) (serial : IsSerial env) (d : Db) (token : String) where
  abbrev hash : String
  hash = security.hash_auth_token token

  consumes :
      {I : Db → Type 0} (table : TokenTable) (now : ℕ) (s : Session)
      → I s.base
      → Ensures I (λ _ e. IsSpent hash now (tokens_of table e)) (consume_token table hash now env s)
  consumes TokenTable.email_verification now s i =
      subst (Ensures _ (λ _ e. IsSpent hash now e.email_tokens))
        (sym (consume_step env serial s TokenTable.email_verification hash now))
        (returned i (IsSpent-after hash now s.db.email_tokens))
  consumes TokenTable.password_reset now s i =
      subst (Ensures _ (λ _ e. IsSpent hash now e.reset_tokens))
        (sym (consume_step env serial s TokenTable.password_reset hash now))
        (returned i (IsSpent-after hash now s.db.reset_tokens))

  pub reset_spends :
      (password : String)
      → IsOutcome
          (λ _. Unit {0})
          (λ _ e. IsSpent hash (env.clock 0) e.reset_tokens)
          (transact (reset_password security token password) env d).0
          (transact (reset_password security token password) env d).1
  unfolding reset_password
  reset_spends password =
      transact-Ends (λ _. Unit {0}) (λ _ e. IsSpent hash (env.clock 0) e.reset_tokens) _ env d
        (utc_now-Ends _ _ (
          Ends-bind (consume_token TokenTable.password_reset hash _) _ _
            (consumes TokenTable.password_reset _ _ tt)
            λ reset_token s i spent. by_token reset_token s spent))
    where
      by_token :
          (o : Option AuthToken) (s : Session)
          → IsSpent hash (env.clock 0) s.db.reset_tokens
          → Ends
              (λ _. Unit {0})
              (λ _ e. IsSpent hash (env.clock 0) e.reset_tokens)
              (reset_with security (env.clock 0) password o env s)
      by_token none s spent = unfold reset_with in unfold raise in failed tt
      by_token (some reset_token) s spent =
          unfold reset_with in
          Ends-bind (Users.get_for_update reset_token.user_id) _ s
            (lock_user env serial _ reset_token.user_id s tt)
            λ user t i (e, row). raise_if-Ends _ _ _ t i λ active.
              Ends-bind (Users.update _) _ t (save_user-tokens env _ t i) λ _ u i' (_, same).
                Ends-then (publish _ user.id (some user.id)) _ u
                  (publish-tokens env _ user.id (some user.id) u i')
                  λ x i'' (_, same'). commit_last env x (
                    subst (IsSpent hash (env.clock 0)) (sym (same' ∙ same ∙ ap Db.reset_tokens e))
                      spent)

  pub verify_spends :
      IsOutcome
        (λ _. Unit {0})
        (λ _ e. IsSpent hash (env.clock 0) e.email_tokens)
        (transact (verify_email security token) env d).0
        (transact (verify_email security token) env d).1
  unfolding verify_email
  verify_spends =
      transact-Ends (λ _. Unit {0}) (λ _ e. IsSpent hash (env.clock 0) e.email_tokens) _ env d
        (utc_now-Ends _ _ (
          Ends-bind (consume_token TokenTable.email_verification hash _) _ _
            (consumes TokenTable.email_verification _ _ tt)
            λ verification s i spent. by_token verification s spent))
    where
      by_token :
          (o : Option AuthToken) (s : Session)
          → IsSpent hash (env.clock 0) s.db.email_tokens
          → Ends
              (λ _. Unit {0})
              (λ _ e. IsSpent hash (env.clock 0) e.email_tokens)
              (verify_with (env.clock 0) o env s)
      by_token none s spent = unfold verify_with in unfold raise in failed tt
      by_token (some verification) s spent =
          unfold verify_with in
          Ends-bind (Users.get_for_update verification.user_id) _ s
            (lock_user env serial _ verification.user_id s tt)
            λ user t i (e, row).
              Ends-bind (mark_verified (env.clock 0) user) _ t
                (mark_verified-tokens env (env.clock 0) user t i)
                λ saved u i' (same, _).
                  commit-Ends env saved u
                    (subst (IsSpent hash (env.clock 0)) (sym (same ∙ ap Db.email_tokens e)) spent)
