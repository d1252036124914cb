-- ===== src/Service/Accounts.antt =====
-- AccountService, app/services/account.py, and `update_user_status` of app/services/admin.py.
use escrow_fx_marketplace.Common.{
  ℕ, Bool, true, false, not, ◌||◌, Option, none, some, String, [], ◌∷◌, ◌==◌,
}
use escrow_fx_marketplace.Domain.Errors.{
  authentication_error, authorization_error, conflict, invariant_violation,
}
use escrow_fx_marketplace.Domain.Enums.{UserRole, UserStatus, AccountAuditEventType, user_is_active}
use escrow_fx_marketplace.Domain.Entities.{User}
use escrow_fx_marketplace.Store.Db.{
  Payload, user_profile_updated, user_account_deactivated, user_account_suspended,
  user_account_reactivated,
}
use escrow_fx_marketplace.Store.Action.{Action, ◌>>=◌, ◌>>◌, pure, raise_if, utc_now, uuid4, commit}
use escrow_fx_marketplace.Store.Users.{lock_users_in_order, user_of, add_audit_event}
use escrow_fx_marketplace.Store.Users
use escrow_fx_marketplace.Store.Requests
use escrow_fx_marketplace.Store.Offers
use escrow_fx_marketplace.Store.Trades
use escrow_fx_marketplace.Store.Outbox.{publish}
use text.Mathlib.Text.{◌==◌ as str_eq}

-- `build_account_audit_event` and its insertion; the metadata are not modelled.
unfoldable pub record_audit_event :
    (subject_user_id actor_user_id : ℕ) → AccountAuditEventType → (occurred_at : ℕ) → Action Unit
record_audit_event subject_user_id actor_user_id event_type occurred_at = do
  id ← uuid4
  add_audit_event (record {
    id = id;
    subject_user_id = subject_user_id;
    actor_user_id = actor_user_id;
    event_type = event_type;
    occurred_at = occurred_at;
  })

-- The common end of the changes of an account: the row, its audit event, the outbox, the commit.
unfoldable pub save_account :
    User → (actor_user_id : ℕ) → AccountAuditEventType → (now : ℕ) → Payload → Action User
unfolding record_audit_event
save_account user actor_user_id event_type now payload = do
  saved ← Users.update user
  record_audit_event user.id actor_user_id event_type now
  publish payload user.id (some user.id)
  commit
  pure saved

abbrev pub same_text : Option String → Option String → Bool
same_text none none = true
same_text (some a) (some b) = str_eq a b
same_text _ _ = false

-- `if user.phone == normalized_phone: return user`
unfoldable pub change_phone : Bool → User → Option String → (now : ℕ) → Action User
unfolding save_account
change_phone true user phone now = pure user
change_phone false user phone now =
    save_account (record user { phone = phone; updated_at = now }) user.id
      AccountAuditEventType.profile_updated now (user_profile_updated user.id user.email now)

-- `update_profile`, on a normalized phone number.
unfoldable pub update_profile : (user_id : ℕ) (phone : Option String) → Action User
unfolding change_phone
update_profile user_id phone = do
  now ← utc_now
  user ← Users.get_for_update user_id
  raise_if (not (user_is_active user.status)) authentication_error
  change_phone (same_text user.phone phone) user phone now

-- `deactivate`. `verify_password` is the password library's.
unfoldable pub deactivate :
    (verify_password : String → String → Bool) (user_id : ℕ) (current_password : String)
    → Action User
unfolding save_account
deactivate verify_password user_id current_password = do
  now ← utc_now
  user ← Users.get_for_update user_id
  raise_if (not (user_is_active user.status)) authentication_error
  raise_if (not (verify_password current_password user.password_hash)) authentication_error
  has_requests ← Requests.has_actionable_for_creator user.id now
  has_offers ← Offers.has_active_for_user user.id now
  has_trades ← Trades.has_non_terminal_for_participant user.id
  raise_if (has_requests || has_offers || has_trades) conflict
  save_account (record user { status = UserStatus.inactive; updated_at = now }) user.id
      AccountAuditEventType.self_deactivated now (user_account_deactivated user.id user.email now)

abbrev pub is_admin : UserRole → Bool
is_admin UserRole.admin = true
is_admin _ = false

abbrev pub same_status : UserStatus → UserStatus → Bool
same_status UserStatus.active UserStatus.active = true
same_status UserStatus.suspended UserStatus.suspended = true
same_status UserStatus.inactive UserStatus.inactive = true
same_status _ _ = false

abbrev pub is_inactive : UserStatus → Bool
is_inactive UserStatus.inactive = true
is_inactive _ = false

-- The change that an administrator may make of a status: the two checks on the old one.
abbrev pub change_is_allowed : (from_status to_status : UserStatus) → Bool
change_is_allowed UserStatus.active UserStatus.suspended = true
change_is_allowed _ UserStatus.suspended = false
change_is_allowed UserStatus.suspended UserStatus.active = true
change_is_allowed UserStatus.inactive UserStatus.active = true
change_is_allowed UserStatus.active UserStatus.active = false
change_is_allowed _ UserStatus.inactive = true

abbrev pub status_event : UserStatus → AccountAuditEventType
status_event UserStatus.suspended = AccountAuditEventType.admin_suspended
status_event _ = AccountAuditEventType.admin_reactivated

abbrev pub status_payload : UserStatus → User → ℕ → Payload
status_payload UserStatus.suspended user now = user_account_suspended user.id user.email now
status_payload _ user now = user_account_reactivated user.id user.email now

-- `update_user_status`, the part behind `if user.status is status: return user`.
unfoldable pub change_status :
    Bool → User → (actor_user_id : ℕ) → UserStatus → (now : ℕ) → Action User
unfolding save_account
change_status true user actor_user_id status now = pure user
change_status false user actor_user_id status now = do
  raise_if (not (change_is_allowed user.status status)) invariant_violation
  save_account (record user { status = status; updated_at = now }) actor_user_id
      (status_event status) now (status_payload status user now)

-- `update_user_status`
unfoldable pub update_user_status : (subject_user_id actor_user_id : ℕ) → UserStatus → Action User
unfolding change_status
update_user_status subject_user_id actor_user_id status = do
  raise_if (subject_user_id == actor_user_id) invariant_violation
  raise_if (is_inactive status) invariant_violation
  now ← utc_now
  users ← lock_users_in_order (actor_user_id ∷ subject_user_id ∷ [])
  actor ← user_of users actor_user_id
  user ← user_of users subject_user_id
  raise_if (not (user_is_active actor.status) || not (is_admin actor.role)) authorization_error
  change_status (same_status user.status status) user actor_user_id status now
