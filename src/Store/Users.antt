-- ===== src/Store/Users.antt =====
-- SqlAlchemyUserRepository and SqlAlchemyAccountAuditEventRepository, and `lock_users_in_order`
-- of app/services/_shared.py.
use escrow_fx_marketplace.Common.{
  ℕ, Bool, not, ◌&&◌, ◌||◌, Option, String, List, [], ◌∷◌, ◌++◌, any, find, ltb, ◌==◌,
  if◌then◌else◌,
}
use escrow_fx_marketplace.Domain.Errors.{not_found, conflict, key_error}
use escrow_fx_marketplace.Domain.Entities.{User, AccountAuditEvent}
use escrow_fx_marketplace.Store.Db.{Db}
use escrow_fx_marketplace.Store.Action.{Action, ◌>>=◌, ◌>>◌, pure, fetch, write_if, wait, collect}
use escrow_fx_marketplace.Store.Table.{update_where}
use text.Mathlib.Text.{◌==◌ as str_eq}

abbrev pub by_id : ℕ → Db → Option User
by_id user_id d = find (λ u. u.id == user_id) d.users

unfoldable pub get_for_update : ℕ → Action User
get_for_update user_id = do wait; fetch (by_id user_id) not_found

-- `get` and `get_by_email`
unfoldable pub get : ℕ → Action User
get user_id = fetch (by_id user_id) not_found

abbrev pub by_email : String → Db → Option User
by_email email d = find (λ u. str_eq u.email email) d.users

unfoldable pub get_by_email : String → Action User
get_by_email email = fetch (by_email email) not_found

-- No other user has the email: its column is unique.
abbrev pub email_is_free : User → Db → Bool
email_is_free user d = not (any (λ u. str_eq u.email user.email && not (u.id == user.id)) d.users)

abbrev pub save : User → Db → Db
save user d = record d {
  users =
      update_where (λ u. u.id == user.id)
        (λ u. record user { id = u.id; created_at = u.created_at }) d.users;
}

unfoldable pub update : User → Action User
update user = do
  _ ← fetch (by_id user.id) not_found
  write_if (email_is_free user) conflict (save user)
  pure user

-- A new row breaks no constraint if its identifier and its email are free.
abbrev pub is_new : User → Db → Bool
is_new user d = not (any (λ u. u.id == user.id || str_eq u.email user.email) d.users)

unfoldable pub add : User → Action User
add user = do
  write_if (is_new user) conflict (λ d. record d { users = d.users ++ user ∷ [] })
  pure user

unfoldable pub add_audit_event : AccountAuditEvent → Action Unit
add_audit_event event =
    write_if (λ d. not (any (λ e. e.id == event.id) d.audit_events)) conflict
      (λ d. record d { audit_events = d.audit_events ++ event ∷ [] })

unfoldable pub insert_id : ℕ → List ℕ → List ℕ
insert_id x [] = x ∷ []
insert_id x (y ∷ ys) = if ltb x y then x ∷ y ∷ ys else if x == y then y ∷ ys else y ∷ insert_id x ys

-- `sorted(set(user_ids), key=lambda value: value.int)`
unfoldable pub lock_order : List ℕ → List ℕ
unfolding insert_id
lock_order [] = []
lock_order (x ∷ xs) = insert_id x (lock_order xs)

-- The rows are returned for the source's dictionary, which is keyed by their identifiers.
unfoldable pub lock_users_in_order : List ℕ → Action (List User)
unfolding lock_order get_for_update
lock_users_in_order user_ids = collect (lock_order user_ids) get_for_update

-- `users[user_id]`
unfoldable pub user_of : List User → ℕ → Action User
user_of users user_id = fetch (λ _. find (λ u. u.id == user_id) users) key_error
