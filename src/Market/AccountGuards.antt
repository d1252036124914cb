-- ===== src/Market/AccountGuards.antt =====
-- What the changes of an account require of the state in which they commit.
use escrow_fx_marketplace.Common.{
  ℕ, ◌≡◌, refl, sym, subst, Bool, true, false, not, ◌&&◌, ◌||◌, some, String, List, arith, ◌==◌,
  ltb, ◌⊎◌, inl, inr, any, find, All,
}
use escrow_fx_marketplace.Domain.Enums.{UserStatus, user_is_active}
use escrow_fx_marketplace.Domain.Lifecycle.{offer_is_active, request_can_accept_offers}
use escrow_fx_marketplace.Domain.Entities.{User}
use escrow_fx_marketplace.Store.Db.{Db}
use escrow_fx_marketplace.Store.Action.{Env, Session, transact}
use escrow_fx_marketplace.Store.Ensures.{
  Ensures, IsSerial, Ensures-bind, fetch-Ensures, raise_if-Ensures, utc_now-Ensures, reads-Ensures,
  pure-Ensures, transact-Ensures,
}
use escrow_fx_marketplace.Store.Users.{user_of, lock_users_in_order, lock_order}
use escrow_fx_marketplace.Store.Users
use escrow_fx_marketplace.Store.Requests
use escrow_fx_marketplace.Store.Offers
use escrow_fx_marketplace.Store.Trades
use escrow_fx_marketplace.Service.Accounts.{
  deactivate, update_user_status, change_status, change_is_allowed, same_status, is_admin,
  is_inactive,
}
use escrow_fx_marketplace.Market.Guards.{IsGuarded, Ensures-IsGuarded}
use escrow_fx_marketplace.Market.LockedUsers.{lock_user, lock_users, row_of}

-- The user is active, the password is right, and no request, offer or trade binds the user.
pub record CanDeactivate (verified : User → Bool) (user_id now : ℕ) (d : Db) : Type 0 where
  pub user : User
  pub user_row : Users.by_id user_id d ≡ some user
  pub active : user_is_active user.status ≡ true
  pub password : verified user ≡ true
  pub no_requests :
      any
        (λ r.
          r.creator_user_id == user.id
          && request_can_accept_offers r.status
          && ltb now r.expires_at)
        d.requests
      ≡ false
  pub no_offers :
      any
        (λ o. o.offer_user_id == user.id && offer_is_active o.status && ltb now o.expires_at)
        d.offers
      ≡ false
  pub no_trades :
      any (λ t. not (Trades.is_terminal t.status) && Trades.is_participant d user.id t) d.trades
      ≡ false

-- An active account is suspended, or one that is not active is reactivated.
abbrev pub IsStatusChange : (from_status to_status : UserStatus) → Type 0
IsStatusChange from_status to_status =
    ((user_is_active from_status ≡ true) × (to_status ≡ UserStatus.suspended))
    ⊎ ((user_is_active from_status ≡ false) × (to_status ≡ UserStatus.active))

change_is_allowed-IsStatusChange :
    (from_status to_status : UserStatus)
    → is_inactive to_status ≡ false
    → change_is_allowed from_status to_status ≡ true
    → IsStatusChange from_status to_status
change_is_allowed-IsStatusChange UserStatus.active UserStatus.active h k = cc
change_is_allowed-IsStatusChange UserStatus.active UserStatus.suspended h k = inl (refl, refl)
change_is_allowed-IsStatusChange UserStatus.active UserStatus.inactive h k = cc
change_is_allowed-IsStatusChange UserStatus.suspended UserStatus.active h k = inr (refl, refl)
change_is_allowed-IsStatusChange UserStatus.suspended UserStatus.suspended h k = cc
change_is_allowed-IsStatusChange UserStatus.suspended UserStatus.inactive h k = cc
change_is_allowed-IsStatusChange UserStatus.inactive UserStatus.active h k = inr (refl, refl)
change_is_allowed-IsStatusChange UserStatus.inactive UserStatus.suspended h k = cc
change_is_allowed-IsStatusChange UserStatus.inactive UserStatus.inactive h k = cc

-- The actor is an active administrator, another user than the subject, whose status may change so.
pub record CanChangeStatus (subject_id actor_id : ℕ) (status : UserStatus) (d : Db) : Type 0 where
  pub actor : User
  pub subject : User
  pub actor_row : Users.by_id actor_id d ≡ some actor
  pub subject_row : Users.by_id subject_id d ≡ some subject
  pub others : (subject_id == actor_id) ≡ false
  pub actor_active : user_is_active actor.status ≡ true
  pub actor_admin : is_admin actor.role ≡ true
  pub status_change : IsStatusChange subject.status status

module _ (env : Env) (serial : IsSerial env) where
  -- When transactions run one after the other, a deactivation commits nothing unless the user is
  -- active, the password is right, and no open request, live offer or unfinished trade binds the
  -- user.
  pub deactivate-IsGuarded :
      (verify_password : String → String → Bool) (user_id : ℕ) (password : String) (d : Db)
      → IsGuarded
          (CanDeactivate (λ u. verify_password password u.password_hash) user_id (env.clock 0) d)
          d
          (transact (deactivate verify_password user_id password) env d).1
  unfolding deactivate Requests.has_actionable_for_creator Offers.has_active_for_user
      Trades.has_non_terminal_for_participant
  deactivate-IsGuarded verify_password user_id password d =
      transact-Ensures
        {I = IsGuarded
          (CanDeactivate (λ u. verify_password password u.password_hash) user_id (env.clock 0) d) d}
        (λ _ _. Unit {0}) _ env d
        (utc_now-Ensures _ _ (
          Ensures-bind (Users.get_for_update user_id) _ _
            (lock_user env serial _ user_id _ (inl refl))
            λ user s i (e, row). raise_if-Ensures _ _ _ s i λ active.
              raise_if-Ensures _ _ _ s i λ password_right. reads-Ensures _ _ s (
                reads-Ensures _ _ s (
                  reads-Ensures _ _ s (
                    raise_if-Ensures _ _ _ s i λ unbound. Ensures-IsGuarded _ (
                      subst
                        (CanDeactivate (λ u. verify_password password u.password_hash) user_id
                          (env.clock 0))
                        e
                        (record {
                          user = user;
                          user_row = subst (λ x. Users.by_id user_id x ≡ some user) (sym e) row;
                          active = ground (arith, active);
                          password = ground (arith, password_right);
                          no_requests = ground (arith, unbound);
                          no_offers = ground (arith, unbound);
                          no_trades = ground (arith, unbound);
                        })))))))

  -- When transactions run one after the other, a change of status commits nothing unless the actor
  -- is an active administrator, is not the subject, and suspends an active user or reactivates one
  -- that is not.
  pub update_user_status-IsGuarded :
      (subject_id actor_id : ℕ) (status : UserStatus) (d : Db)
      → IsGuarded
          (CanChangeStatus subject_id actor_id status d)
          d
          (transact (update_user_status subject_id actor_id status) env d).1
  unfolding update_user_status user_of
  update_user_status-IsGuarded subject_id actor_id status d =
      transact-Ensures {I = IsGuarded (CanChangeStatus subject_id actor_id status d) d}
        (λ _ _. Unit {0}) _ env d
        (raise_if-Ensures _ _ _ _ (inl refl) λ others.
          raise_if-Ensures _ _ _ _ (inl refl) λ settable. utc_now-Ensures _ _ (
            Ensures-bind (lock_users_in_order _) _ _ (lock_users env serial _ _ _ (inl refl))
              λ users s i (rows, e). fetch-Ensures _ _ _ s i λ actor actor_found.
                fetch-Ensures _ _ _ s i λ subject subject_found.
                  raise_if-Ensures _ _ _ s i λ is_active_admin.
                    change users actor subject others settable rows actor_found subject_found
                      is_active_admin (same_status subject.status status) s i))
    where
      change :
          (users : List User) (actor subject : User)
          → (subject_id == actor_id) ≡ false
          → is_inactive status ≡ false
          → All (λ u. Users.by_id u.id d ≡ some u) users
          → find (λ u. u.id == actor_id) users ≡ some actor
          → find (λ u. u.id == subject_id) users ≡ some subject
          → (not (user_is_active actor.status) || not (is_admin actor.role)) ≡ false
          → (same : Bool) (s : Session)
          → IsGuarded (CanChangeStatus subject_id actor_id status d) d s.base
          → Ensures
              (IsGuarded (CanChangeStatus subject_id actor_id status d) d)
              (λ _ _. Unit {0})
              (change_status same subject actor_id status (env.clock 0) env s)
      change users actor subject others settable rows af sf ok true s i =
          unfold change_status in pure-Ensures env _ s i tt
      change users actor subject others settable rows af sf ok false s i =
          unfold change_status in
          raise_if-Ensures _ _ _ s i λ allowed. Ensures-IsGuarded _ (record {
            actor = actor;
            subject = subject;
            actor_row = row_of d users actor_id actor rows af;
            subject_row = row_of d users subject_id subject rows sf;
            others = others;
            actor_active = ground (arith, ok);
            actor_admin = ground (arith, ok);
            status_change =
                change_is_allowed-IsStatusChange subject.status status settable
                  (ground (arith, allowed));
          })
