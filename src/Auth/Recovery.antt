-- ===== src/Auth/Recovery.antt =====
-- A password reset, from the link to the next login.
use escrow_fx_marketplace.Common.{
  ℕ, ◌≡◌, refl, sym, subst, ap, ◌∙◌, true, false, not, ◌&&◌, some, String, [], ◌∷◌, ◌++◌, any, find,
  All, All-weaken, ◌==◌, ==-refl, ==→eq, if◌then◌else◌, Bool-cases, inl, inr, arith, is_none,
}
use escrow_fx_marketplace.Domain.Errors.{ok}
use escrow_fx_marketplace.Domain.Enums.{user_is_active}
use escrow_fx_marketplace.Domain.Entities.{User}
use escrow_fx_marketplace.Domain.Identity.{AuthToken}
use escrow_fx_marketplace.Store.Db.{Db, user_password_reset_completed}
use escrow_fx_marketplace.Store.Action.{
  Env, Session, Action, ◌>>=◌, pure, utc_now, commit, transact, begin,
}
use escrow_fx_marketplace.Store.Ensures.{IsSerial}
use escrow_fx_marketplace.Store.Users
use escrow_fx_marketplace.Store.Tokens.{
  TokenTable, is_consumable, consumed, consumed_or_none, consume_token,
}
use escrow_fx_marketplace.Store.Outbox.{publish}
use escrow_fx_marketplace.Market.Rows.{find-passes}
use escrow_fx_marketplace.Auth.Tokens.{Security, reset_password, reset_with}
use escrow_fx_marketplace.Auth.Sessions.{login_user}
use escrow_fx_marketplace.Auth.Steps.{
  bind_step, then_step, fetch_step, raise_if_step, spend, consume_step, lock_step, save_step, event,
  publish_step, find-agree, mapped, find-map, any-none,
}
use text.Mathlib.Text.{◌==◌ as str_eq}
use text.Mathlib.TextPositions.{eq_refl}

-- The user's email and identifier pick the same rows.
abbrev pub IsSoleUser : User → Db → Type 0
IsSoleUser u d = All (λ x. str_eq x.email u.email ≡ (x.id == u.id)) d.users

-- The user with the new password.
abbrev pub renewed : Security → (now : ℕ) → (password : String) → User → User
renewed security now password u = record u {
  password_hash = security.hash_password password;
  updated_at = now;
}

module _ (u : User) (d : Db) (sole : IsSoleUser u d) where
  email_free : (v : User) → v.email ≡ u.email → v.id ≡ u.id → Users.email_is_free v d ≡ true
  email_free v e i = ground (
    arith,
    any-none (λ x. str_eq x.email v.email && not (x.id == v.id)) d.users
        (All-weaken (λ x. str_eq x.email u.email ≡ (x.id == u.id)) _
          (λ x h. rw (e, i, h) (ground arith)) d.users sole),
  )

  -- After the save, a search by the email finds the renewed user.
  renewed_found :
      (security : Security) (now : ℕ) (password : String)
      → Users.by_id u.id d ≡ some u
      → Users.by_email u.email (Users.save (renewed security now password u) d)
        ≡ some (renewed security now password u)
  renewed_found security now password row =
      find-map (λ x. str_eq x.email u.email) _ d.users
        (All-weaken (λ x. str_eq x.email u.email ≡ (x.id == u.id)) _ same_test d.users sole)
      ∙ ap (mapped _)
          (find-agree (λ x. str_eq x.email u.email) (λ x. x.id == u.id) d.users sole ∙ row)
      ∙ rw (==-refl u.id) refl
    where
      same_test :
          (x : User)
          → str_eq x.email u.email ≡ (x.id == u.id)
          → str_eq
              (if x.id == u.id
                then record (renewed security now password u) {
                  id = x.id;
                  created_at = x.created_at;
                }
                else x).email
              u.email
            ≡ str_eq x.email u.email
      same_test x h = elim (Bool-cases (x.id == u.id)) [
        | inl hit ↦ rw (hit) (eq_refl u.email ∙ sym (h ∙ hit))
        | inr miss ↦ rw miss refl
      ]

module _ (security : Security) (env : Env) (serial : IsSerial env) (d : Db)
    (token password : String) (reset_token : AuthToken) (u : User)
    (found : find (is_consumable (security.hash_auth_token token) (env.clock 0)) d.reset_tokens
      ≡ some reset_token)
    (row : Users.by_id reset_token.user_id d ≡ some u) (active : user_is_active u.status ≡ true)
    (sole : IsSoleUser u d) (fresh : any (λ e. e.id == env.uuid 0) d.outbox ≡ false) where
  abbrev now : ℕ
  now = env.clock 0

  abbrev spent : Db
  spent = spend TokenTable.password_reset (security.hash_auth_token token) now d

  abbrev saved : Db
  saved = Users.save (renewed security now password u) spent

  abbrev after_save : Session
  after_save = record (begin d) { db = saved; ticks = 1; waits = 2 }

  abbrev final : Db
  final = record saved {
    outbox =
        saved.outbox
        ++ event env after_save (user_password_reset_completed u.id u.email now) u.id (some u.id)
          ∷ [];
  }

  own_row : Users.by_id u.id d ≡ some u
  own_row =
      subst (λ k. Users.by_id k d ≡ some u)
        (sym (
          ==→eq u.id reset_token.user_id
            (find-passes (λ x. x.id == reset_token.user_id) d.users row)))
        row

  clock_step :
      {B : Type 0} (f : ℕ → Action B)
      → (utc_now >>= f) env (begin d) ≡ f now env (record (begin d) { ticks = 1 })
  unfolding utc_now ◌>>=◌
  clock_step f = refl

  commit_step : (s : Session) → commit env s ≡ (ok tt, record s { base = s.db })
  unfolding commit
  commit_step s = refl

  reset_step :
      reset_password security token password env (begin d)
      ≡ (ok tt, record (begin d) { db = final; base = final; ticks = 2; draws = 1; waits = 2 })
  unfolding reset_password reset_with
  reset_step =
      let s1 : Session = record (begin d) { ticks = 1 } in
      let s2 : Session = record (begin d) { db = spent; ticks = 1; waits = 1 } in
      let s3 : Session = record (begin d) { db = spent; ticks = 1; waits = 2 } in
      clock_step _
      ∙ bind_step (consume_token TokenTable.password_reset (security.hash_auth_token token) now) _
          env s1 s2 (some (consumed now reset_token))
          (consume_step env serial s1 TokenTable.password_reset (security.hash_auth_token token) now
            ∙ ap (λ o. (ok (consumed_or_none now o), s2)) found)
      ∙ bind_step (Users.get_for_update reset_token.user_id) _ env s2 s3 u
          (lock_step env serial s2 reset_token.user_id u row)
      ∙ raise_if_step (not (user_is_active u.status)) _ _ env s3 (ground (arith, active))
      ∙ bind_step (Users.update (renewed security now password u)) _ env s3 after_save
          (renewed security now password u)
          (save_step env s3 (renewed security now password u) u own_row
            (email_free u spent sole (renewed security now password u) refl refl))
      ∙ then_step (publish (user_password_reset_completed u.id u.email now) u.id (some u.id)) commit
          env after_save _
          (publish_step env after_save (user_password_reset_completed u.id u.email now) u.id
            (some u.id) fresh)
      ∙ commit_step _

  login_step :
      (later : Env)
      → security.verify_password password (security.hash_password password) ≡ true
      → is_none u.email_verified_at ≡ false
      → (login_user security u.email password later (begin final)).0
        ≡ ok (renewed security now password u)
  unfolding login_user pure
  login_step later verifies verified =
      ap (λ r. r.0)
        (fetch_step (Users.by_email u.email) _ _ later (begin final)
            (renewed_found u d sole security now password own_row)
          ∙ raise_if_step (not (user_is_active u.status)) _ _ later (begin final)
              (ground (arith, active))
          ∙ raise_if_step
              (not (security.verify_password password (security.hash_password password))) _ _ later
              (begin final) (ground (arith, verifies))
          ∙ raise_if_step (is_none u.email_verified_at) _ _ later (begin final) verified)

  -- When transactions run one after the other, a link that is unused and unexpired resets the
  -- password of its user, if the user is active and the only row with that email, and the identifier
  -- drawn for the event is new; and then the user, once the email is verified, can log in with the
  -- new password, if the password library verifies what it has hashed.
  pub reset_password-login :
      (later : Env)
      → security.verify_password password (security.hash_password password) ≡ true
      → is_none u.email_verified_at ≡ false
      → ((transact (reset_password security token password) env d).0 ≡ ok tt)
        × ((transact
              (login_user security u.email password)
              later
              (transact (reset_password security token password) env d).1).0
            ≡ ok (renewed security now password u))
  unfolding transact
  reset_password-login later verifies verified = (
    ap (λ r. r.0) reset_step,
    subst
        (λ r.
          (login_user security u.email password later (begin r.1.base)).0
          ≡ ok (renewed security now password u))
        (sym reset_step) (login_step later verifies verified),
  )
