-- ===== src/Auth/Silence.antt =====
-- What `forgot_password` tells about an address.
use escrow_fx_marketplace.Common.{
  ◌+◌, ◌≡◌, refl, Bool, true, false, ◌||◌, Option, none, some, String, any, ◌==◌,
}
use escrow_fx_marketplace.Domain.Errors.{ok}
use escrow_fx_marketplace.Domain.Enums.{user_is_active}
use escrow_fx_marketplace.Domain.Entities.{User}
use escrow_fx_marketplace.Store.Action.{
  Env, Session, ◌>>=◌, ◌>>◌, pure, reads, utc_now, uuid4, write_if, commit,
}
use escrow_fx_marketplace.Store.Users
use escrow_fx_marketplace.Store.Tokens.{TokenTable, add_token}
use escrow_fx_marketplace.Store.Outbox
use escrow_fx_marketplace.Store.Outbox.{publish}
use escrow_fx_marketplace.Auth.Tokens.{Security, queue_token, queue_if, forgot_for, forgot_password}
use text.Mathlib.Text.{◌==◌ as str_eq}

module _ (security : Security) (env : Env) (s : Session)
    (new_id : any
        (λ x.
          x.id == env.uuid (s.draws + 1)
          || str_eq x.token_hash
              (security.hash_auth_token (security.token_urlsafe (env.uuid s.draws))))
        s.db.reset_tokens
      ≡ false)
    (new_event : any (λ e. e.id == env.uuid (s.draws + 1 + 1)) s.db.outbox ≡ false) where
  queue_if_lem :
      (active : Bool) (user : User)
      → (queue_if security active TokenTable.password_reset user env s).0 ≡ ok tt
  unfolding queue_if queue_token pure ◌>>=◌ ◌>>◌ uuid4 utc_now add_token write_if publish Outbox.add
      commit
  queue_if_lem false user = refl
  queue_if_lem true user = rw (new_id, new_event) refl

  -- Where the drawn token and identifiers are new, `forgot_password` answers the same for every
  -- address: one that nobody has, one of an account that is not active, and one of an active account.
  pub forgot_password-silent : (email : String) → (forgot_password security email env s).0 ≡ ok tt
  unfolding forgot_password forgot_for pure ◌>>=◌ reads
  forgot_password-silent email = answer (Users.by_email email s.db)
    where
      answer : (o : Option User) → (forgot_for security o env s).0 ≡ ok tt
      answer none = refl
      answer (some user) = queue_if_lem (user_is_active user.status) user
