-- ===== src/Service/Requests.antt =====
-- ExchangeRequestService, app/services/exchange_request.py: its mutations.
use escrow_fx_marketplace.Common.{
  ℕ, ◌+◌, not, ◌||◌, Option, none, some, String, List, [], ◌∷◌, map, leb, ◌==◌,
}
use escrow_fx_marketplace.Domain.Errors.{
  not_found, conflict, precondition_failed, invariant_violation,
}
use escrow_fx_marketplace.Domain.Enums.{
  UserStatus, KycStatus, ExchangeRequestStatus, ExchangeOfferStatus, user_is_active,
  kyc_is_verified, currency_is_active, corridor_is_active,
}
use escrow_fx_marketplace.Domain.Lifecycle.{
  request_can_be_edited, request_can_be_cancelled, request_can_be_relisted, offer_is_active,
}
use escrow_fx_marketplace.Domain.Decimal.{Decimal, ltb_number}
use escrow_fx_marketplace.Domain.Entities.{ExchangeRequest, ExchangeOffer}
use escrow_fx_marketplace.Store.Db.{
  request_details, Reason, exchange_request_created, exchange_request_cancelled,
  exchange_request_relisted, exchange_offer_rejected,
}
use escrow_fx_marketplace.Store.Action.{
  Action, ◌>>=◌, ◌>>◌, pure, lift, raise_if, when, for_each, utc_now, uuid4, commit,
}
use escrow_fx_marketplace.Store.Users.{lock_users_in_order, user_of}
use escrow_fx_marketplace.Store.Users
use escrow_fx_marketplace.Store.References.{get_by_code, get_currency, get_by_currency_pair}
use escrow_fx_marketplace.Store.Requests
use escrow_fx_marketplace.Store.Offers
use escrow_fx_marketplace.Store.Outbox.{publish}
use escrow_fx_marketplace.Store.Idempotency.{IdempotencyRequest, Claim}
use escrow_fx_marketplace.Service.Outcome.{Outcome, response, with_claim, conclude}
use escrow_fx_marketplace.Service.Locks.{lock_offers, participants_unchanged}
use escrow_fx_marketplace.Service.Terms.{
  request_lifetime, Terms, creation_terms, Changes, changes_nothing, changed_terms,
}

unfoldable pub create_request_claimed :
    (creator_user_id : ℕ) (from_code to_code : String) → Terms → Claim → Action Outcome
create_request_claimed creator_user_id from_code to_code terms claim = do
  user ← Users.get_for_update creator_user_id
  raise_if (not (user_is_active user.status)) precondition_failed
  raise_if (not (kyc_is_verified user.kyc_status)) precondition_failed
  from_currency ← get_by_code from_code
  to_currency ← get_by_code to_code
  raise_if (not (currency_is_active from_currency.status)) not_found
  raise_if (not (currency_is_active to_currency.status)) not_found
  raise_if (ltb_number terms.amount from_currency.min_amount) invariant_violation
  raise_if (ltb_number from_currency.max_amount terms.amount) invariant_violation
  corridor ← get_by_currency_pair from_currency.id to_currency.id
  raise_if (not (corridor_is_active corridor.status)) not_found
  now ← utc_now
  id ← uuid4
  created ← Requests.add (record {
    id = id;
    relisted_from_request_id = none;
    creator_user_id = user.id;
    from_currency_id = from_currency.id;
    to_currency_id = to_currency.id;
    from_amount = terms.amount;
    preferred_rate = terms.preferred;
    min_rate = terms.minimum;
    status = ExchangeRequestStatus.request_open;
    expires_at = now + request_lifetime;
    created_at = now;
    updated_at = now;
  })
  publish
      (exchange_request_created created.id user.id from_code to_code created.from_amount
        created.preferred_rate created.min_rate)
      created.id (some user.id)
  details ← Requests.get_details_for_user created.id user.id
  conclude claim 201 (request_details details) now

-- `create_request`, on normalized codes.
unfoldable pub create_request :
    (creator_user_id : ℕ) (from_code to_code : String) (from_amount preferred_rate : Decimal)
    (min_rate : Option Decimal) (idempotency : Option IdempotencyRequest)
    → Action Outcome
unfolding create_request_claimed
create_request creator_user_id from_code to_code from_amount preferred_rate min_rate idempotency =
    do
      terms ← lift (creation_terms from_code to_code from_amount preferred_rate min_rate)
      now ← utc_now
      with_claim idempotency now (create_request_claimed creator_user_id from_code to_code terms)

-- One round of the loop that ends the offers of a cancelled request.
unfoldable pub reject_for_cancellation : (request_id now : ℕ) → ExchangeOffer → Action Unit
reject_for_cancellation request_id now offer =
    when (offer_is_active offer.status)
      (do
        Offers.update (record offer { status = ExchangeOfferStatus.rejected; updated_at = now })
        publish (exchange_offer_rejected offer.id request_id none (some Reason.request_cancelled))
            offer.id (some offer.offer_user_id))
      tt

-- The writes of `cancel_request`.
unfoldable pub cancel_locked :
    (requester_user_id now : ℕ) → ExchangeRequest → List ExchangeOffer → Action Unit
unfolding reject_for_cancellation
cancel_locked requester_user_id now request locked_offers = do
  Requests.update (record request { status = ExchangeRequestStatus.cancelled; updated_at = now })
  publish (exchange_request_cancelled request.id requester_user_id) request.id
      (some requester_user_id)
  for_each locked_offers (reject_for_cancellation request.id now)

unfoldable pub cancel_request_claimed :
    (request_id requester_user_id now : ℕ) → Claim → Action Outcome
unfolding cancel_locked
cancel_request_claimed request_id requester_user_id now claim = do
  initial_request ← Requests.get request_id
  raise_if (not (initial_request.creator_user_id == requester_user_id)) not_found
  initial_offers ← Offers.list_for_request request_id
  _ ←
      lock_users_in_order
        (initial_request.creator_user_id ∷ map (λ o. o.offer_user_id) initial_offers)
  request ← Requests.get_for_update request_id
  raise_if (not (request.creator_user_id == initial_request.creator_user_id)) conflict
  current_offers ← Offers.list_for_request request_id
  raise_if (not (participants_unchanged initial_offers current_offers)) conflict
  locked_offers ← lock_offers request.id initial_offers current_offers
  raise_if (not (request_can_be_cancelled request.status)) invariant_violation
  raise_if (leb request.expires_at now) invariant_violation
  cancel_locked requester_user_id now request locked_offers
  details ← Requests.get_details_for_user request_id requester_user_id
  conclude claim 200 (request_details details) now

-- `cancel_request`
unfoldable pub cancel_request :
    (request_id requester_user_id : ℕ) (idempotency : Option IdempotencyRequest) → Action Outcome
unfolding cancel_request_claimed
cancel_request request_id requester_user_id idempotency = do
  now ← utc_now
  with_claim idempotency now (cancel_request_claimed request_id requester_user_id now)

-- `_require_active_verified_user`
unfoldable pub require_active_verified_user : UserStatus → KycStatus → Action Unit
require_active_verified_user status kyc_status = do
  raise_if (not (user_is_active status)) precondition_failed
  raise_if (not (kyc_is_verified kyc_status)) precondition_failed

-- `update_request`, the part behind the checks.
unfoldable pub change_terms :
    (request_id requester_user_id now : ℕ) → ExchangeRequest → Terms → Action Outcome
change_terms request_id requester_user_id now request terms = do
  Requests.update (record request {
    from_amount = terms.amount;
    preferred_rate = terms.preferred;
    min_rate = terms.minimum;
    updated_at = now;
  })
  commit
  details ← Requests.get_details_for_user request_id requester_user_id
  pure (response (request_details details))

-- `update_request`
unfoldable pub update_request : (request_id requester_user_id : ℕ) → Changes → Action Outcome
unfolding require_active_verified_user change_terms
update_request request_id requester_user_id changes = do
  now ← utc_now
  raise_if (changes_nothing changes) invariant_violation
  initial_request ← Requests.get request_id
  raise_if (not (initial_request.creator_user_id == requester_user_id)) not_found
  users ← lock_users_in_order (initial_request.creator_user_id ∷ [])
  user ← user_of users initial_request.creator_user_id
  require_active_verified_user user.status user.kyc_status
  request ← Requests.get_for_update request_id
  raise_if (not (request.creator_user_id == initial_request.creator_user_id)) conflict
  raise_if (not (request_can_be_edited request.status)) invariant_violation
  raise_if (leb request.expires_at now) invariant_violation
  has_any_offers ← Requests.has_any_offers request_id
  raise_if has_any_offers invariant_violation
  from_currency ← get_currency request.from_currency_id
  terms ← lift (changed_terms changes request from_currency.min_amount from_currency.max_amount)
  change_terms request_id requester_user_id now request terms

unfoldable pub relist_request_claimed :
    (request_id requester_user_id now : ℕ) → Changes → Claim → Action Outcome
unfolding require_active_verified_user
relist_request_claimed request_id requester_user_id now changes claim = do
  initial_request ← Requests.get request_id
  raise_if (not (initial_request.creator_user_id == requester_user_id)) not_found
  users ← lock_users_in_order (initial_request.creator_user_id ∷ [])
  user ← user_of users initial_request.creator_user_id
  require_active_verified_user user.status user.kyc_status
  original ← Requests.get_for_update request_id
  raise_if (not (original.creator_user_id == initial_request.creator_user_id)) conflict
  raise_if (not (request_can_be_relisted original.status)) invariant_violation
  has_successor ← Requests.has_relisted_successor original.id
  raise_if has_successor conflict
  from_currency ← get_currency original.from_currency_id
  to_currency ← get_currency original.to_currency_id
  raise_if
      (not (currency_is_active from_currency.status) || not (currency_is_active to_currency.status))
      not_found
  corridor ← get_by_currency_pair from_currency.id to_currency.id
  raise_if (not (corridor_is_active corridor.status)) not_found
  terms ← lift (changed_terms changes original from_currency.min_amount from_currency.max_amount)
  id ← uuid4
  created ← Requests.add (record {
    id = id;
    relisted_from_request_id = some original.id;
    creator_user_id = requester_user_id;
    from_currency_id = from_currency.id;
    to_currency_id = to_currency.id;
    from_amount = terms.amount;
    preferred_rate = terms.preferred;
    min_rate = terms.minimum;
    status = ExchangeRequestStatus.request_open;
    expires_at = now + request_lifetime;
    created_at = now;
    updated_at = now;
  })
  publish
      (exchange_request_relisted created.id original.id requester_user_id from_currency.code
        to_currency.code created.from_amount created.preferred_rate created.min_rate
        created.expires_at)
      created.id (some requester_user_id)
  details ← Requests.get_details_for_user created.id requester_user_id
  conclude claim 201 (request_details details) now

-- `relist_request`
unfoldable pub relist_request :
    (request_id requester_user_id : ℕ) (changes : Changes) (idempotency : Option IdempotencyRequest)
    → Action Outcome
unfolding relist_request_claimed
relist_request request_id requester_user_id changes idempotency = do
  now ← utc_now
  with_claim idempotency now (relist_request_claimed request_id requester_user_id now changes)
