-- ===== src/Service/Offers.antt =====
-- ExchangeOfferService, app/services/exchange_offer.py: its mutations.
use escrow_fx_marketplace.Common.{
  ℕ, Bool, true, false, not, ◌||◌, Option, none, some, List, [], ◌∷◌, any, find, leb, ◌==◌,
}
use escrow_fx_marketplace.Domain.Errors.{
  not_found, conflict, authorization_error, precondition_failed, invariant_violation, key_error,
}
use escrow_fx_marketplace.Domain.Enums.{
  ExchangeRequestStatus, ExchangeOfferStatus, user_is_active, kyc_is_verified, request_is_open,
}
use escrow_fx_marketplace.Domain.Lifecycle.{request_can_accept_offers, offer_is_active}
use escrow_fx_marketplace.Domain.Decimal.{Number, Decimal, ltb_number, eq_number}
use escrow_fx_marketplace.Domain.Values.{rate_value}
use escrow_fx_marketplace.Domain.Entities.{User, ExchangeRequest, ExchangeOffer}
use escrow_fx_marketplace.Store.Db.{
  offer_details, exchange_offer_created, exchange_offer_updated, exchange_offer_withdrawn,
  exchange_offer_rejected,
}
use escrow_fx_marketplace.Store.Action.{
  Action, ◌>>=◌, ◌>>◌, pure, lift, fetch, raise_if, when, utc_now, uuid4, commit,
}
use escrow_fx_marketplace.Store.Users.{lock_users_in_order, user_of}
use escrow_fx_marketplace.Store.Requests
use escrow_fx_marketplace.Store.Offers
use escrow_fx_marketplace.Store.Outbox.{publish}
use escrow_fx_marketplace.Store.Idempotency.{IdempotencyRequest, Claim}
use escrow_fx_marketplace.Service.Outcome.{Outcome, response, with_claim, conclude}

-- `exchange_request.min_rate is not None and rate.value < exchange_request.min_rate`
abbrev pub is_below_minimum : Number → Option Number → Bool
is_below_minimum rate none = false
is_below_minimum rate (some minimum) = ltb_number rate minimum

-- `_request_status_after_active_offer_change`
abbrev pub status_after_offer_change :
    ExchangeRequestStatus → List ExchangeOffer → ExchangeRequestStatus
status_after_offer_change ExchangeRequestStatus.offer_pending offers =
    elim (any (λ o. offer_is_active o.status) offers) [
      | true ↦ ExchangeRequestStatus.offer_pending
      | false ↦ ExchangeRequestStatus.request_open
    ]
status_after_offer_change status offers = status

-- `request_status is not exchange_request.status`: the function above changes a status only from
-- OFFER_PENDING to REQUEST_OPEN.
abbrev pub status_has_changed : ExchangeRequestStatus → ExchangeRequestStatus → Bool
status_has_changed ExchangeRequestStatus.offer_pending ExchangeRequestStatus.request_open = true
status_has_changed _ _ = false

pub record OfferContext : Type 0 where
  pub users : List User
  pub request : ExchangeRequest
  pub offer : ExchangeOffer

-- `_lock_existing_offer_context`
unfoldable pub lock_existing_offer_context : ℕ → Action OfferContext
lock_existing_offer_context offer_id = do
  initial_offer ← Offers.get offer_id
  initial_request ← Requests.get initial_offer.request_id
  users ← lock_users_in_order (initial_request.creator_user_id ∷ initial_offer.offer_user_id ∷ [])
  request ← Requests.get_for_update initial_request.id
  offer ← Offers.get_for_update offer_id
  raise_if
      (not (request.creator_user_id == initial_request.creator_user_id)
        || not (offer.request_id == initial_request.id)
        || not (offer.offer_user_id == initial_offer.offer_user_id))
      conflict
  pure (record { users = users; request = request; offer = offer })

-- The writes of `create_offer`.
unfoldable pub record_offer : ExchangeRequest → ExchangeOffer → (now : ℕ) → Claim → Action Outcome
record_offer request offer now claim = do
  created ← Offers.add offer
  when (request_is_open request.status)
      (Requests.update
        (record request { status = ExchangeRequestStatus.offer_pending; updated_at = now }))
      tt
  publish (exchange_offer_created created.id request.id created.offer_user_id created.offered_rate)
      created.id (some request.creator_user_id)
  offers ← Offers.list_details_for_request created.request_id
  details ← fetch (λ _. find (λ o. o.offer.id == created.id) offers) key_error
  conclude claim 201 (offer_details details) now

-- `create_offer`, the part behind the locks.
unfoldable pub submit_offer :
    (request_id offer_user_id : ℕ) (rate : Number) (now : ℕ)
    → ExchangeRequest
    → List User
    → Claim
    → Action Outcome
unfolding record_offer
submit_offer request_id offer_user_id rate now request users claim = do
  user ← user_of users offer_user_id
  raise_if (not (user_is_active user.status)) authorization_error
  raise_if (not (kyc_is_verified user.kyc_status)) precondition_failed
  request_creator ← user_of users request.creator_user_id
  raise_if (not (user_is_active request_creator.status)) precondition_failed
  raise_if (is_below_minimum rate request.min_rate) invariant_violation
  _ ← Requests.get_visible_details request_id offer_user_id
  raise_if (leb request.expires_at now) invariant_violation
  has_active_offer ← Offers.has_active_offer_for_request request_id offer_user_id
  raise_if has_active_offer conflict
  id ← uuid4
  record_offer request
      (record {
        id = id;
        request_id = request_id;
        offer_user_id = offer_user_id;
        offered_rate = rate;
        status = ExchangeOfferStatus.active;
        expires_at = request.expires_at;
        created_at = now;
        updated_at = now;
      })
      now claim

unfoldable pub create_offer_claimed :
    (request_id offer_user_id : ℕ) (rate : Number) (now : ℕ) → Claim → Action Outcome
unfolding submit_offer
create_offer_claimed request_id offer_user_id rate now claim = do
  initial_request ← Requests.get request_id
  raise_if (initial_request.creator_user_id == offer_user_id) invariant_violation
  users ← lock_users_in_order (offer_user_id ∷ initial_request.creator_user_id ∷ [])
  request ← Requests.get_for_update request_id
  raise_if (not (request.creator_user_id == initial_request.creator_user_id)) conflict
  submit_offer request_id offer_user_id rate now request users claim

-- `create_offer`
unfoldable pub create_offer :
    (request_id offer_user_id : ℕ) (offered_rate : Decimal)
    (idempotency : Option IdempotencyRequest)
    → Action Outcome
unfolding create_offer_claimed
create_offer request_id offer_user_id offered_rate idempotency = do
  rate ← lift (rate_value offered_rate)
  now ← utc_now
  with_claim idempotency now (create_offer_claimed request_id offer_user_id rate now)

-- `update_offer`: the read at its end.
unfoldable pub keep_rate : (offer_id offer_user_id : ℕ) → Action Outcome
keep_rate offer_id offer_user_id = do
  details ← Offers.get_visible_details offer_id offer_user_id
  pure (response (offer_details details))

-- `update_offer`, the part behind the checks.
unfoldable pub change_rate :
    (offer_id offer_user_id : ℕ) (rate : Number) (now : ℕ) → OfferContext → Action Outcome
unfolding keep_rate
change_rate offer_id offer_user_id rate now c = do
  Offers.update (record c.offer { offered_rate = rate; updated_at = now })
  publish (exchange_offer_updated c.offer.id c.request.id offer_user_id rate) c.offer.id
      (some c.request.creator_user_id)
  commit
  keep_rate offer_id offer_user_id

-- `if rate.value == offer.offered_rate: return ...`
unfoldable pub settle_rate :
    Bool → (offer_id offer_user_id : ℕ) (rate : Number) (now : ℕ) → OfferContext → Action Outcome
unfolding change_rate
settle_rate true offer_id offer_user_id rate now c = keep_rate offer_id offer_user_id
settle_rate false offer_id offer_user_id rate now c = change_rate offer_id offer_user_id rate now c

-- `update_offer`
unfoldable pub update_offer : (offer_id offer_user_id : ℕ) (offered_rate : Decimal) → Action Outcome
unfolding settle_rate
update_offer offer_id offer_user_id offered_rate = do
  now ← utc_now
  rate ← lift (rate_value offered_rate)
  c ← lock_existing_offer_context offer_id
  raise_if (not (c.offer.offer_user_id == offer_user_id)) not_found
  user ← user_of c.users c.offer.offer_user_id
  raise_if (not (user_is_active user.status)) authorization_error
  raise_if (not (kyc_is_verified user.kyc_status)) precondition_failed
  raise_if (not (offer_is_active c.offer.status)) invariant_violation
  raise_if (leb c.offer.expires_at now) invariant_violation
  raise_if (not (request_can_accept_offers c.request.status)) invariant_violation
  raise_if (leb c.request.expires_at now) invariant_violation
  raise_if (is_below_minimum rate c.request.min_rate) invariant_violation
  settle_rate (eq_number rate c.offer.offered_rate) offer_id offer_user_id rate now c

-- The writes that `withdraw_offer` and `reject_offer` share: the offer leaves ACTIVE, and a
-- request with no active offer left goes back to REQUEST_OPEN.
unfoldable pub close_offer : OfferContext → ExchangeOfferStatus → ℕ → Action Unit
close_offer c status now = do
  Offers.update (record c.offer { status = status; updated_at = now })
  offers ← Offers.list_for_request c.request.id
  let request_status = status_after_offer_change c.request.status offers
  when (status_has_changed c.request.status request_status)
      (Requests.update (record c.request { status = request_status; updated_at = now })) tt

unfoldable pub withdraw_offer_claimed : (offer_id offer_user_id now : ℕ) → Claim → Action Outcome
unfolding close_offer
withdraw_offer_claimed offer_id offer_user_id now claim = do
  c ← lock_existing_offer_context offer_id
  raise_if (not (c.offer.offer_user_id == offer_user_id)) not_found
  raise_if (not (offer_is_active c.offer.status)) invariant_violation
  raise_if (leb c.offer.expires_at now) invariant_violation
  raise_if (not (request_can_accept_offers c.request.status)) invariant_violation
  close_offer c ExchangeOfferStatus.withdrawn now
  publish (exchange_offer_withdrawn c.offer.id c.request.id offer_user_id) c.offer.id
      (some c.request.creator_user_id)
  details ← Offers.get_visible_details offer_id offer_user_id
  conclude claim 200 (offer_details details) now

-- `withdraw_offer`
unfoldable pub withdraw_offer :
    (offer_id offer_user_id : ℕ) (idempotency : Option IdempotencyRequest) → Action Outcome
unfolding withdraw_offer_claimed
withdraw_offer offer_id offer_user_id idempotency = do
  now ← utc_now
  with_claim idempotency now (withdraw_offer_claimed offer_id offer_user_id now)

unfoldable pub reject_offer_claimed : (offer_id requester_user_id now : ℕ) → Claim → Action Outcome
unfolding close_offer
reject_offer_claimed offer_id requester_user_id now claim = do
  c ← lock_existing_offer_context offer_id
  raise_if (not (offer_is_active c.offer.status)) invariant_violation
  raise_if (leb c.offer.expires_at now) invariant_violation
  raise_if (not (c.request.creator_user_id == requester_user_id)) authorization_error
  raise_if (not (request_can_accept_offers c.request.status)) invariant_violation
  raise_if (leb c.request.expires_at now) invariant_violation
  close_offer c ExchangeOfferStatus.rejected now
  publish (exchange_offer_rejected c.offer.id c.request.id (some requester_user_id) none) c.offer.id
      (some c.offer.offer_user_id)
  details ← Offers.get_visible_details offer_id requester_user_id
  conclude claim 200 (offer_details details) now

-- `reject_offer`
unfoldable pub reject_offer :
    (offer_id requester_user_id : ℕ) (idempotency : Option IdempotencyRequest) → Action Outcome
unfolding reject_offer_claimed
reject_offer offer_id requester_user_id idempotency = do
  now ← utc_now
  with_claim idempotency now (reject_offer_claimed offer_id requester_user_id now)
