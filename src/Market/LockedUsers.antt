-- ===== src/Market/LockedUsers.antt =====
-- What the locks on users return.
use escrow_fx_marketplace.Common.{ℕ, ◌≡◌, refl, sym, subst, some, List, ◌==◌, find, All, ==→eq}
use escrow_fx_marketplace.Domain.Entities.{User}
use escrow_fx_marketplace.Store.Db.{Db}
use escrow_fx_marketplace.Store.Action.{Env, Session}
use escrow_fx_marketplace.Store.Ensures.{
  Ensures, IsSerial, fetch_last-Ensures, wait-Ensures, collect-Ensures,
}
use escrow_fx_marketplace.Store.Users.{user_of, lock_users_in_order, lock_order}
use escrow_fx_marketplace.Store.Users
use escrow_fx_marketplace.Market.Rows.{find-All, find-passes}

module _ (env : Env) (serial : IsSerial env) where
  pub lock_user :
      (I : Db → Type 0) (id : ℕ) (s : Session)
      → I s.base
      → Ensures I
          (λ u d. (d ≡ s.db) × (Users.by_id id s.db ≡ some u))
          (Users.get_for_update id env s)
  unfolding Users.get_for_update
  lock_user I id s i = wait-Ensures serial _ s (fetch_last-Ensures env _ _ _ i λ u e. (refl, e))

  -- The locked rows, each under its identifier.
  pub lock_users :
      (I : Db → Type 0) (ids : List ℕ) (s : Session)
      → I s.base
      → Ensures I
          (λ us d. All (λ u. Users.by_id u.id s.db ≡ some u) us × (d ≡ s.db))
          (lock_users_in_order ids env s)
  unfolding lock_users_in_order Users.get_for_update
  lock_users I ids s i =
      collect-Ensures (λ d. d ≡ s.db) (λ u. Users.by_id u.id s.db ≡ some u) _
        (λ id s' i' e. wait-Ensures serial _ s' (
          fetch_last-Ensures env _ _ _ i'
            λ u f. (own id u (subst (λ x. Users.by_id id x ≡ some u) e f), e)))
        (lock_order ids) s i refl
    where
      own : (id : ℕ) (u : User) → Users.by_id id s.db ≡ some u → Users.by_id u.id s.db ≡ some u
      own id u f =
          subst (λ k. Users.by_id k s.db ≡ some u)
            (sym (==→eq u.id id (find-passes (λ u. u.id == id) s.db.users f))) f

-- The locked row of a user is the row in the database.
pub row_of :
    (d : Db) (users : List User) (id : ℕ) (u : User)
    → All (λ u. Users.by_id u.id d ≡ some u) users
    → find (λ u. u.id == id) users ≡ some u
    → Users.by_id id d ≡ some u
row_of d users id u rows found =
    subst (λ k. Users.by_id k d ≡ some u)
      (==→eq u.id id (find-passes (λ u. u.id == id) users found))
      (find-All (λ u. u.id == id) (λ u. Users.by_id u.id d ≡ some u) users rows found)
