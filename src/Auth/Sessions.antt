-- ===== src/Auth/Sessions.antt =====
-- The operations of AuthService that admit a user.
use escrow_fx_marketplace.Common.{ℕ, not, String, is_none}
use escrow_fx_marketplace.Domain.Errors.{authentication_error, precondition_failed, Result}
use escrow_fx_marketplace.Domain.Enums.{UserRole, user_is_active}
use escrow_fx_marketplace.Domain.Entities.{User}
use escrow_fx_marketplace.Store.Action.{Action, ◌>>=◌, ◌>>◌, pure, fetch, lift, raise_if}
use escrow_fx_marketplace.Store.Users
use escrow_fx_marketplace.Auth.Tokens.{Security}

-- `AuthenticatedPrincipal`, app/domain/auth.py
pub record AuthenticatedPrincipal : Type 0 where
  pub user_id : ℕ
  pub email : String
  pub role : UserRole

-- `login_user`, on a normalized email: the user for whom an access token is issued.
unfoldable pub login_user : Security → (email password : String) → Action User
login_user security email password = do
  user ← fetch (Users.by_email email) authentication_error
  raise_if (not (user_is_active user.status)) authentication_error
  raise_if (not (security.verify_password password user.password_hash)) authentication_error
  raise_if (is_none user.email_verified_at) precondition_failed
  pure user

-- `authenticate_token`, on the user of the token's claims, if the token decodes.
unfoldable pub authenticate_token : Result ℕ → Action AuthenticatedPrincipal
authenticate_token claims_user_id = do
  user_id ← lift claims_user_id
  user ← fetch (Users.by_id user_id) authentication_error
  raise_if (not (user_is_active user.status)) authentication_error
  raise_if (is_none user.email_verified_at) authentication_error
  pure (record { user_id = user.id; email = user.email; role = user.role })

-- `get_user_by_id`
unfoldable pub get_user_by_id : ℕ → Action User
get_user_by_id user_id = Users.get user_id
