-- ===== src/Auth/Admins.antt =====
-- `create_admin` and `promote_admin` of AuthService, on normalized texts.
use escrow_fx_marketplace.Common.{ℕ, Option, none, some, String}
use escrow_fx_marketplace.Domain.Enums.{UserRole, UserStatus, KycStatus, RiskLevel}
use escrow_fx_marketplace.Domain.Entities.{User}
use escrow_fx_marketplace.Store.Action.{Action, ◌>>=◌, ◌>>◌, pure, reads, utc_now, uuid4, commit}
use escrow_fx_marketplace.Store.Users
use escrow_fx_marketplace.Auth.Tokens.{Security}

-- `user.email_verified_at or utc_now()`: the clock is read only where there is no value.
unfoldable pub or_utc_now : Option ℕ → Action ℕ
or_utc_now none = utc_now
or_utc_now (some t) = pure t

module _ (security : Security) where
  abbrev pub password_hash_or : Option String → String → String
  password_hash_or none stored = stored
  password_hash_or (some password) stored = security.hash_password password

  -- The promotion of a locked user.
  unfoldable pub promote : User → (password : Option String) → Action User
  unfolding or_utc_now
  promote user password = do
    verified_at ← or_utc_now user.email_verified_at
    now ← utc_now
    saved ← Users.update (record user {
      role = UserRole.admin;
      kyc_status = KycStatus.verified;
      email_verified_at = some verified_at;
      password_hash = password_hash_or password user.password_hash;
      updated_at = now;
    })
    commit
    pure saved

  unfoldable pub create_or_promote :
      (email password country : String) (phone : Option String) → Option User → Action User
  unfolding promote
  create_or_promote email password country phone none = do
    id ← uuid4
    verified_at ← utc_now
    created_at ← utc_now
    updated_at ← utc_now
    admin ← Users.add (record {
      id = id;
      email = email;
      password_hash = security.hash_password password;
      phone = phone;
      country = country;
      role = UserRole.admin;
      status = UserStatus.active;
      kyc_status = KycStatus.verified;
      risk_level = RiskLevel.low;
      email_verified_at = some verified_at;
      created_at = created_at;
      updated_at = updated_at;
    })
    commit
    pure admin
  create_or_promote email password country phone (some found) = do
    user ← Users.get_for_update found.id
    promote user (some password)

  -- `create_admin`
  unfoldable pub create_admin :
      (email password country : String) (phone : Option String) → Action User
  unfolding create_or_promote
  create_admin email password country phone = do
    found ← reads (Users.by_email email)
    create_or_promote email password country phone found

  -- `promote_admin`
  unfoldable pub promote_admin : (email : String) (password : Option String) → Action User
  unfolding promote
  promote_admin email password = do
    found ← Users.get_by_email email
    user ← Users.get_for_update found.id
    promote user password
