-- ===== src/Service/Trades.antt =====
-- TradeService, app/services/trade.py: `accept_offer` and the read for a participant.
use escrow_fx_marketplace.Common.{
  ℕ, ◌+◌, ◌*◌, true, false, not, ◌&&◌, Option, none, some, List, [], ◌∷◌, map, any, find, leb, ◌==◌,
}
use escrow_fx_marketplace.Domain.Errors.{
  conflict, authorization_error, precondition_failed, invariant_violation, key_error,
}
use escrow_fx_marketplace.Domain.Enums.{
  ExchangeRequestStatus, ExchangeOfferStatus, TradeContractStatus, user_is_active,
  corridor_is_active,
}
use escrow_fx_marketplace.Domain.Lifecycle.{request_can_accept_offers, offer_is_active}
use escrow_fx_marketplace.Domain.Decimal.{mul_number}
use escrow_fx_marketplace.Domain.Entities.{
  User, Corridor, ExchangeRequest, ExchangeOffer, TradeContract, TradeContractDetails,
}
use escrow_fx_marketplace.Store.Db.{
  Db, trade_details, Reason, exchange_offer_accepted, exchange_offer_rejected,
  trade_contract_locked,
}
use escrow_fx_marketplace.Store.Action.{
  Action, ◌>>=◌, ◌>>◌, pure, fetch, raise_if, when, for_each, utc_now, uuid4,
}
use escrow_fx_marketplace.Store.Users.{lock_users_in_order, user_of}
use escrow_fx_marketplace.Store.Requests
use escrow_fx_marketplace.Store.Offers
use escrow_fx_marketplace.Store.Trades
use escrow_fx_marketplace.Store.Outbox.{publish}
use escrow_fx_marketplace.Store.Idempotency.{IdempotencyRequest, Claim}
use escrow_fx_marketplace.Service.Outcome.{Outcome, with_claim, conclude}
use escrow_fx_marketplace.Service.Locks.{lock_offers, participants_unchanged}

-- `timedelta(minutes=...)`, in microseconds.
abbrev pub minutes : ℕ → ℕ
minutes n = n * (60 * 1_000_000)

-- The corridor of the pair.
abbrev pub corridor_of : ExchangeRequest → Db → Option Corridor
corridor_of request d =
    find
      (λ c.
        c.from_currency_id == request.from_currency_id
        && c.to_currency_id == request.to_currency_id)
      d.corridors

-- A missing one raises InvariantViolationError here.
unfoldable pub corridor_for_trade : ExchangeRequest → Action Corridor
corridor_for_trade request = do
  corridor ← fetch (corridor_of request) invariant_violation
  raise_if (not (corridor_is_active corridor.status)) invariant_violation
  pure corridor

-- The contract that `accept_offer` adds.
abbrev pub trade_for : (id now : ℕ) → ExchangeRequest → ExchangeOffer → Corridor → TradeContract
trade_for id now request offer corridor = record {
  id = id;
  request_id = request.id;
  accepted_offer_id = offer.id;
  agreed_rate = offer.offered_rate;
  reference_rate_snapshot = none;
  from_amount = request.from_amount;
  to_amount = mul_number request.from_amount offer.offered_rate;
  funding_deadline_at = now + minutes corridor.funding_sla_minutes;
  status = TradeContractStatus.terms_locked;
  created_at = now;
  updated_at = now;
}

-- `ACCEPTED if existing_offer.id == offer.id else REJECTED`
abbrev pub settled_status : (accepted_id offer_id : ℕ) → ExchangeOfferStatus
settled_status accepted_id offer_id = elim (offer_id == accepted_id) [
  | true ↦ ExchangeOfferStatus.accepted
  | false ↦ ExchangeOfferStatus.rejected
]

unfoldable pub announce_settled :
    (request_id accepted_id trade_id : ℕ) → ExchangeOffer → Action Unit
announce_settled request_id accepted_id trade_id offer =
    publish
      (elim (offer.id == accepted_id) [
        | true ↦ exchange_offer_accepted offer.id request_id trade_id
        | false ↦
            exchange_offer_rejected offer.id request_id none (some Reason.competing_offer_accepted)
      ])
      offer.id (some offer.offer_user_id)

-- One round of the loop over the locked offers: the accepted offer and its competitors.
unfoldable pub settle_offer :
    (request_id accepted_id trade_id now : ℕ) → ExchangeOffer → Action Unit
unfolding announce_settled
settle_offer request_id accepted_id trade_id now offer =
    when (offer_is_active offer.status)
      (do
        Offers.update
            (record offer { status = settled_status accepted_id offer.id; updated_at = now })
        announce_settled request_id accepted_id trade_id offer)
      tt

-- The writes of `accept_offer`.
unfoldable pub lock_terms :
    (now : ℕ)
    → ExchangeRequest
    → ExchangeOffer
    → List ExchangeOffer
    → Corridor
    → Action TradeContract
unfolding settle_offer
lock_terms now request offer offers corridor = do
  id ← uuid4
  trade ← Trades.add (trade_for id now request offer corridor)
  Requests.update (record request { status = ExchangeRequestStatus.terms_locked; updated_at = now })
  for_each offers (settle_offer request.id offer.id trade.id now)
  for_each (request.creator_user_id ∷ offer.offer_user_id ∷ []) (λ recipient.
      publish (trade_contract_locked trade.id request.id offer.id) trade.id (some recipient))
  pure trade

-- The checks of `accept_offer` behind the locks.
unfoldable pub check_acceptable :
    (requester_user_id now : ℕ) → List User → ExchangeRequest → ExchangeOffer → Action Unit
check_acceptable requester_user_id now users request offer = do
  requester ← user_of users requester_user_id
  raise_if (not (user_is_active requester.status)) authorization_error
  owner ← user_of users offer.offer_user_id
  raise_if (not (user_is_active owner.status)) precondition_failed
  raise_if (not (request_can_accept_offers request.status)) invariant_violation
  raise_if (leb request.expires_at now) invariant_violation
  raise_if (not (offer_is_active offer.status)) invariant_violation
  raise_if (leb offer.expires_at now) invariant_violation

unfoldable pub accept_offer_claimed : (offer_id requester_user_id now : ℕ) → Claim → Action Outcome
unfolding lock_terms check_acceptable corridor_for_trade
accept_offer_claimed offer_id requester_user_id now claim = do
  initial_offer ← Offers.get offer_id
  initial_request ← Requests.get initial_offer.request_id
  raise_if (not (initial_request.creator_user_id == requester_user_id)) authorization_error
  initial_offers ← Offers.list_for_request initial_request.id
  raise_if (not (any (λ o. o.id == offer_id) initial_offers)) conflict
  users ←
      lock_users_in_order
        (initial_request.creator_user_id ∷ map (λ o. o.offer_user_id) initial_offers)
  request ← Requests.get_for_update initial_request.id
  raise_if (not (request.creator_user_id == initial_request.creator_user_id)) conflict
  current_offers ← Offers.list_for_request request.id
  raise_if (not (participants_unchanged initial_offers current_offers)) conflict
  offers ← lock_offers request.id initial_offers current_offers
  offer ← fetch (λ _. find (λ o. o.id == offer_id) offers) key_error
  check_acceptable requester_user_id now users request offer
  corridor ← corridor_for_trade request
  trade ← lock_terms now request offer offers corridor
  details ← Trades.get_for_participant trade.id requester_user_id
  conclude claim 200 (trade_details details) now

-- `accept_offer`
unfoldable pub accept_offer :
    (offer_id requester_user_id : ℕ) (idempotency : Option IdempotencyRequest) → Action Outcome
unfolding accept_offer_claimed
accept_offer offer_id requester_user_id idempotency = do
  now ← utc_now
  with_claim idempotency now (accept_offer_claimed offer_id requester_user_id now)

-- `get_trade_for_participant`
unfoldable pub get_trade_for_participant : (trade_id user_id : ℕ) → Action TradeContractDetails
get_trade_for_participant trade_id user_id = Trades.get_for_participant trade_id user_id
