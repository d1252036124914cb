-- ===== src/Auth/Passwords.antt =====
-- `change_password` of AuthService.
use escrow_fx_marketplace.Common.{ℕ, not, some, String}
use escrow_fx_marketplace.Domain.Errors.{authentication_error, invariant_violation}
use escrow_fx_marketplace.Domain.Enums.{user_is_active}
use escrow_fx_marketplace.Domain.Entities.{User}
use escrow_fx_marketplace.Store.Db.{user_password_changed}
use escrow_fx_marketplace.Store.Action.{Action, ◌>>=◌, ◌>>◌, raise_if, utc_now, commit}
use escrow_fx_marketplace.Store.Users
use escrow_fx_marketplace.Store.Outbox.{publish}
use escrow_fx_marketplace.Auth.Tokens.{Security}
use text.Mathlib.Text.{◌==◌ as str_eq}

-- The two tests that are made before the lock and again after it.
unfoldable pub check_password : Security → User → (password : String) → Action (Unit {0})
check_password security user password = do
  raise_if (not (user_is_active user.status)) authentication_error
  raise_if (not (security.verify_password password user.password_hash)) authentication_error

-- `change_password`
unfoldable pub change_password :
    Security → (user_id : ℕ) (current_password new_password : String) → Action (Unit {0})
unfolding check_password
change_password security user_id current_password new_password = do
  raise_if (str_eq current_password new_password) invariant_violation
  now ← utc_now
  seen ← Users.get user_id
  check_password security seen current_password
  user ← Users.get_for_update user_id
  check_password security user current_password
  _ ←
      Users.update
        (record user { password_hash = security.hash_password new_password; updated_at = now })
  publish (user_password_changed user.id user.email now) user.id (some user.id)
  commit
