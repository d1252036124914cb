-- ===== src/Store/Trades.antt =====
-- SqlAlchemyTradeContractRepository.
use escrow_fx_marketplace.Common.{
  ℕ, Bool, true, false, not, ◌&&◌, ◌||◌, Option, none, some, List, [], ◌∷◌, ◌++◌, any, find, select,
  map, leb, ◌==◌,
}
use escrow_fx_marketplace.Domain.Errors.{not_found, conflict, missing_relation}
use escrow_fx_marketplace.Domain.Enums.{TradeContractStatus, trade_is_terms_locked}
use escrow_fx_marketplace.Domain.Entities.{
  ExchangeRequest, ExchangeOffer, TradeContract, TradeContractDetails,
}
use escrow_fx_marketplace.Store.Db.{Db}
use escrow_fx_marketplace.Store.Action.{
  Action, ◌>>=◌, ◌>>◌, pure, reads, fetch, write_if, write, wait, collect,
}
use escrow_fx_marketplace.Store.Table.{update_where}
use escrow_fx_marketplace.Store.Requests
use escrow_fx_marketplace.Store.Offers

-- The primary key, and the unique `request_id` and `accepted_offer_id`.
abbrev pub key_is_free : TradeContract → Db → Bool
key_is_free trade d = not (
    any
      (λ t.
        t.id == trade.id
        || t.request_id == trade.request_id
        || t.accepted_offer_id == trade.accepted_offer_id)
      d.trades)

abbrev pub insert : TradeContract → Db → Db
insert trade d = record d { trades = d.trades ++ trade ∷ [] }

unfoldable pub add : TradeContract → Action TradeContract
add trade = do write_if (key_is_free trade) conflict (insert trade); pure trade

-- `request.has(creator_user_id == user_id) or accepted_offer.has(offer_user_id == user_id)`
abbrev pub is_participant : Db → ℕ → TradeContract → Bool
is_participant d user_id t =
    any (λ r. r.id == t.request_id && r.creator_user_id == user_id) d.requests
    || any (λ o. o.id == t.accepted_offer_id && o.offer_user_id == user_id) d.offers

unfoldable pub details_with :
    TradeContract → Option ExchangeRequest → Option ExchangeOffer → Option TradeContractDetails
details_with t (some r) (some o) = some (record {
  trade = t;
  requester_user_id = r.creator_user_id;
  counterparty_user_id = o.offer_user_id;
})
details_with t _ _ = none

unfoldable pub to_details : TradeContract → Db → Option TradeContractDetails
unfolding details_with
to_details t d = details_with t (Requests.by_id t.request_id d) (Offers.by_id t.accepted_offer_id d)

unfoldable pub get_for_participant : ℕ → ℕ → Action TradeContractDetails
unfolding to_details
get_for_participant trade_id user_id = do
  row ← fetch (λ d. find (λ t. t.id == trade_id && is_participant d user_id t) d.trades) not_found
  fetch (to_details row) missing_relation

abbrev pub is_due_unfunded : ℕ → TradeContract → Bool
is_due_unfunded now t = trade_is_terms_locked t.status && leb t.funding_deadline_at now

abbrev pub cancel : ℕ → TradeContract → TradeContract
cancel now t = record t { status = TradeContractStatus.cancelled; updated_at = now }

unfoldable pub cancel_due_unfunded : ℕ → Action (List TradeContractDetails)
unfolding to_details
cancel_due_unfunded now = do
  wait
  rows ← reads (λ d. select (is_due_unfunded now) d.trades)
  write (λ d. record d { trades = update_where (is_due_unfunded now) (cancel now) d.trades })
  collect (map (cancel now) rows) (λ t. fetch (to_details t) missing_relation)

-- `status not in (SETTLED, CANCELLED)`
abbrev pub is_terminal : TradeContractStatus → Bool
is_terminal TradeContractStatus.settled = true
is_terminal TradeContractStatus.cancelled = true
is_terminal _ = false

unfoldable pub has_non_terminal_for_participant : ℕ → Action Bool
has_non_terminal_for_participant user_id =
    reads (λ d. any (λ t. not (is_terminal t.status) && is_participant d user_id t) d.trades)
