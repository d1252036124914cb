-- ===== src/Service/Preferences.antt =====
-- app/services/notification_preferences.py. The gateway is a parameter; the keys under which it
-- recognizes a repeated call are left to it.
use escrow_fx_marketplace.Common.{
  ℕ, ◌≡◌, refl, subst, Bool, true, false, Option, none, some, String, List, [], ◌∷◌, any,
}
use escrow_fx_marketplace.Domain.Errors.{Result, ok, invariant_violation}
use escrow_fx_marketplace.Domain.Entities.{User}
use escrow_fx_marketplace.Store.Db.{Db}
use escrow_fx_marketplace.Store.Action.{Env, Session, Action, ◌>>=◌, ◌>>◌, pure, lift, raise_if}
use escrow_fx_marketplace.Store.Ensures.{
  Ensures, fetch-Ensures, raise_if-Ensures, lift-Ensures, pure-Ensures, value-Ensures,
}
use escrow_fx_marketplace.Store.Users

-- `NotificationCategory`
pub data NotificationCategory : Type 0 where
  security kyc trade marketplace : NotificationCategory

-- `email_enabled_by_category`
abbrev pub Switches : Type 0
Switches = List (NotificationCategory × Bool)

-- `NotificationPreferenceState`
pub record NotificationPreferenceState : Type 0 where
  pub preference_set_id : String
  pub email_enabled_by_category : Switches

-- `NotificationPreferenceGateway`
pub record NotificationPreferenceGateway : Type 0 where
  pub upsert_recipient : User → Result (Unit {0})
  pub get_preferences : (user_id : ℕ) → Result (Option NotificationPreferenceState)
  pub set_preferences : (user_id : ℕ) → Switches → Result NotificationPreferenceState

pub record CategoryPreference : Type 0 where
  pub email_enabled : Bool
  pub mutable : Bool

pub record NotificationPreferencesResponse : Type 0 where
  pub preference_set_id : String
  pub of_security : CategoryPreference
  pub of_kyc : CategoryPreference
  pub of_trade : CategoryPreference
  pub of_marketplace : CategoryPreference

-- `MANDATORY_CATEGORIES`
abbrev pub is_mandatory : NotificationCategory → Bool
is_mandatory NotificationCategory.marketplace = false
is_mandatory _ = true

-- `email_enabled_by_category.get("marketplace")`
abbrev pub marketplace_switch : Switches → Option Bool
marketplace_switch [] = none
marketplace_switch ((NotificationCategory.marketplace, on) ∷ rest) = some on
marketplace_switch ((NotificationCategory.security, on) ∷ rest) = marketplace_switch rest
marketplace_switch ((NotificationCategory.kyc, on) ∷ rest) = marketplace_switch rest
marketplace_switch ((NotificationCategory.trade, on) ∷ rest) = marketplace_switch rest

abbrev pub enabled_or : Option Bool → Bool
enabled_or none = true
enabled_or (some on) = on

abbrev pub response_of : String → (marketplace_on : Bool) → NotificationPreferencesResponse
response_of preference_set_id marketplace_on = record {
  preference_set_id = preference_set_id;
  of_security = record { email_enabled = true; mutable = false };
  of_kyc = record { email_enabled = true; mutable = false };
  of_trade = record { email_enabled = true; mutable = false };
  of_marketplace = record { email_enabled = marketplace_on; mutable = true };
}

-- `_response`
unfoldable pub response : Option NotificationPreferenceState → NotificationPreferencesResponse
response none = response_of "default" true
response (some state) =
    response_of state.preference_set_id
      (enabled_or (marketplace_switch state.email_enabled_by_category))

module _ (gateway : NotificationPreferenceGateway) where
  -- `get`
  unfoldable pub get_preferences_of : (user_id : ℕ) → Action NotificationPreferencesResponse
  unfolding response
  get_preferences_of user_id = do
    user ← Users.get user_id
    lift (gateway.upsert_recipient user)
    state ← lift (gateway.get_preferences user.id)
    pure (response state)

  -- `update`; the user is read in a transaction of its own, which nothing follows.
  unfoldable pub update_preferences :
      (user_id : ℕ) → Switches → Action NotificationPreferencesResponse
  unfolding response
  update_preferences user_id updates = do
    raise_if (any (λ u. is_mandatory u.0) updates) invariant_violation
    user ← Users.get user_id
    lift (gateway.upsert_recipient user)
    state ← lift (gateway.set_preferences user.id updates)
    pure (response (some state))

-- What an update that answers has done: the provider was given switches of the marketplace only,
-- and the answer leaves the other categories on.
pub record IsEffective (gateway : NotificationPreferenceGateway) (user_id : ℕ) (updates : Switches)
    (d : Db) (answer : NotificationPreferencesResponse) : Type 0 where
  pub user : User
  pub user_row : Users.by_id user_id d ≡ some user
  pub allowed : any (λ u. is_mandatory u.0) updates ≡ false
  pub state : NotificationPreferenceState
  pub merged : gateway.set_preferences user.id updates ≡ ok state
  pub as_provided :
      answer.of_marketplace.email_enabled
      ≡ enabled_or (marketplace_switch state.email_enabled_by_category)
  pub security_on : answer.of_security.email_enabled ≡ true
  pub kyc_on : answer.of_kyc.email_enabled ≡ true
  pub trade_on : answer.of_trade.email_enabled ≡ true

pub update_preferences-IsEffective :
    (gateway : NotificationPreferenceGateway) (env : Env) (s s' : Session) (user_id : ℕ)
    (updates : Switches) (answer : NotificationPreferencesResponse)
    → update_preferences gateway user_id updates env s ≡ (ok answer, s')
    → IsEffective gateway user_id updates s.db answer
unfolding update_preferences Users.get ◌>>◌ response
update_preferences-IsEffective gateway env s s' user_id updates answer run =
    let Q : NotificationPreferencesResponse → Db → Type 0 =
      λ r _. IsEffective gateway user_id updates s.db r in
    let I : Db → Type 0 = λ _. Unit {0} in
    value-Ensures {I = I} {Q = Q} (
      subst (Ensures I Q) run (
        raise_if-Ensures _ _ _ s tt λ allowed. fetch-Ensures _ _ _ s tt λ user row.
          lift-Ensures _ _ s tt λ _ _.
            lift-Ensures (gateway.set_preferences user.id updates) _ s tt λ state merged.
              pure-Ensures env _ s tt (record {
                user = user;
                user_row = row;
                allowed = allowed;
                state = state;
                merged = merged;
                as_provided = refl;
                security_on = refl;
                kyc_on = refl;
                trade_on = refl;
              })))
