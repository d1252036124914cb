-- ===== src/Auth/Tokens.antt =====
-- The operations of AuthService that issue and use the links in emails.
use escrow_fx_marketplace.Common.{
  ℕ, ◌+◌, ◌*◌, Bool, true, false, not, Option, none, some, String, is_none,
}
use escrow_fx_marketplace.Domain.Errors.{precondition_failed, conflict}
use escrow_fx_marketplace.Domain.Enums.{UserRole, UserStatus, KycStatus, RiskLevel, user_is_active}
use escrow_fx_marketplace.Domain.Entities.{User}
use escrow_fx_marketplace.Domain.Identity.{AuthToken}
use escrow_fx_marketplace.Store.Db.{
  Payload, user_email_verification_requested, user_password_reset_requested,
  user_password_reset_completed,
}
use escrow_fx_marketplace.Store.Action.{
  Action, ◌>>=◌, ◌>>◌, pure, raise, reads, raise_if, utc_now, uuid4, commit,
}
use escrow_fx_marketplace.Store.Users
use escrow_fx_marketplace.Store.Tokens.{TokenTable, add_token, consume_token}
use escrow_fx_marketplace.Store.Outbox.{publish}

-- SecurityService and the settings, and the standard library's secrets and sha256: passwords and
-- raw tokens are hashed by functions, and the n-th random draw is written as a text.
pub record Security : Type 0 where
  pub hash_password : String → String
  pub verify_password : (password password_hash : String) → Bool
  pub token_urlsafe : ℕ → String
  pub hash_auth_token : String → String
  pub email_verification_minutes : ℕ
  pub password_reset_minutes : ℕ

abbrev pub minutes : ℕ → ℕ
minutes n = n * 60_000_000

abbrev pub fresh_token : (id user_id : ℕ) (token_hash : String) (now lifetime : ℕ) → AuthToken
fresh_token id user_id token_hash now lifetime = record {
  id = id;
  user_id = user_id;
  token_hash = token_hash;
  expires_at = now + lifetime;
  consumed_at = none;
  created_at = now;
  updated_at = now;
}

-- The two queues differ in the table, the lifetime and the event.
abbrev pub lifetime_of : Security → TokenTable → ℕ
lifetime_of security TokenTable.email_verification = minutes security.email_verification_minutes
lifetime_of security TokenTable.password_reset = minutes security.password_reset_minutes

abbrev pub link_payload : TokenTable → User → (raw_token : String) → (expires_at : ℕ) → Payload
link_payload TokenTable.email_verification user raw_token expires_at =
    user_email_verification_requested user.id user.email raw_token expires_at
link_payload TokenTable.password_reset user raw_token expires_at =
    user_password_reset_requested user.id user.email raw_token expires_at

-- `verify_email`, behind the test of the token.
unfoldable pub mark_verified : (now : ℕ) → User → Action User
mark_verified now user = elim user.email_verified_at [
  | none ↦ Users.update (record user { email_verified_at = some now; updated_at = now })
  | some _ ↦ pure user
]

unfoldable pub verify_with : (now : ℕ) → Option AuthToken → Action User
unfolding mark_verified
verify_with now none = raise precondition_failed
verify_with now (some verification) = do
  user ← Users.get_for_update verification.user_id
  saved ← mark_verified now user
  commit
  pure saved

module _ (security : Security) where
  -- `_new_auth_token`, with `_queue_email_verification` and `_queue_password_reset`
  unfoldable pub queue_token : TokenTable → User → Action (Unit {0})
  queue_token table user = do
    draw ← uuid4
    now ← utc_now
    id ← uuid4
    _ ← add_token table (
        fresh_token id user.id (security.hash_auth_token (security.token_urlsafe draw)) now
          (lifetime_of security table))
    publish
        (link_payload table user (security.token_urlsafe draw) (now + lifetime_of security table))
        user.id (some user.id)

  abbrev pub customer :
      (id : ℕ) (email password country : String) (phone : Option String) (created updated : ℕ)
      → User
  customer id email password country phone created updated = record {
    id = id;
    email = email;
    password_hash = security.hash_password password;
    phone = phone;
    country = country;
    role = UserRole.customer;
    status = UserStatus.active;
    kyc_status = KycStatus.pending;
    risk_level = RiskLevel.low;
    email_verified_at = none;
    created_at = created;
    updated_at = updated;
  }

  -- `register_user`, on a normalized email, country and phone number.
  unfoldable pub register_user :
      (email password country : String) (phone : Option String) → Action User
  unfolding queue_token
  register_user email password country phone = do
    existing ← reads (Users.by_email email)
    raise_if (not (is_none existing)) conflict
    id ← uuid4
    created_at ← utc_now
    updated_at ← utc_now
    created ← Users.add (customer id email password country phone created_at updated_at)
    queue_token TokenTable.email_verification created
    commit
    pure created

  -- `verify_email`
  unfoldable pub verify_email : (token : String) → Action User
  unfolding verify_with
  verify_email token = do
    now ← utc_now
    verification ← consume_token TokenTable.email_verification (security.hash_auth_token token) now
    verify_with now verification

  unfoldable pub queue_if : Bool → TokenTable → User → Action (Unit {0})
  unfolding queue_token
  queue_if false table user = pure tt
  queue_if true table user = do queue_token table user; commit

  -- `resend_email_verification`, on a normalized email, by the user that has it.
  unfoldable pub resend_to : Option User → Action (Unit {0})
  unfolding queue_if
  resend_to none = pure tt
  resend_to (some user) =
      queue_if (is_none user.email_verified_at) TokenTable.email_verification user

  unfoldable pub resend_email_verification : (email : String) → Action (Unit {0})
  unfolding resend_to
  resend_email_verification email = do user ← reads (Users.by_email email); resend_to user

  -- `forgot_password`, on a normalized email, by the user that has it.
  unfoldable pub forgot_for : Option User → Action (Unit {0})
  unfolding queue_if
  forgot_for none = pure tt
  forgot_for (some user) = queue_if (user_is_active user.status) TokenTable.password_reset user

  unfoldable pub forgot_password : (email : String) → Action (Unit {0})
  unfolding forgot_for
  forgot_password email = do user ← reads (Users.by_email email); forgot_for user

  unfoldable pub reset_with : (now : ℕ) (password : String) → Option AuthToken → Action (Unit {0})
  reset_with now password none = raise precondition_failed
  reset_with now password (some reset_token) = do
    user ← Users.get_for_update reset_token.user_id
    raise_if (not (user_is_active user.status)) precondition_failed
    _ ←
        Users.update
          (record user { password_hash = security.hash_password password; updated_at = now })
    publish (user_password_reset_completed user.id user.email now) user.id (some user.id)
    commit

  -- `reset_password`
  unfoldable pub reset_password : (token password : String) → Action (Unit {0})
  unfolding reset_with
  reset_password token password = do
    now ← utc_now
    reset_token ← consume_token TokenTable.password_reset (security.hash_auth_token token) now
    reset_with now password reset_token
