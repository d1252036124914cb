-- ===== src/Pages/Dealings.antt =====
-- The lists of offers and of trades: the pages of the repositories, and their operations in
-- app/services/exchange_offer.py and app/services/trade.py.
use escrow_fx_marketplace.Common.{ℕ, Bool, not, ◌&&◌, Option, List, ◌==◌}
use escrow_fx_marketplace.Domain.Decimal.{Number}
use escrow_fx_marketplace.Domain.Enums.{ExchangeOfferStatus, TradeContractStatus}
use escrow_fx_marketplace.Domain.Entities.{
  ExchangeOffer, ExchangeOfferDetails, TradeContract, TradeContractDetails,
}
use escrow_fx_marketplace.Domain.Errors.{missing_relation, authorization_error}
use escrow_fx_marketplace.Store.Db.{Db}
use escrow_fx_marketplace.Store.Action.{
  Action, ◌>>=◌, ◌>>◌, pure, reads, fetch, lift, raise_if, collect,
}
use escrow_fx_marketplace.Store.Requests
use escrow_fx_marketplace.Store.Offers
use escrow_fx_marketplace.Store.Trades
use escrow_fx_marketplace.Store.Trades.{is_participant}
use escrow_fx_marketplace.Pages.Cursor.{Cursor, page_of, validate_date_range}
use escrow_fx_marketplace.Pages.Filters.{
  validate_range, DateRange, is_created_in, at_least, at_most, offer_code, trade_code, passes,
}
use escrow_fx_marketplace.Pages.Board.{Page}

abbrev pub offer_position : ExchangeOffer → Cursor
offer_position o = record { created_at = o.created_at; item_id = o.id }

abbrev pub trade_position : TradeContract → Cursor
trade_position t = record { created_at = t.created_at; item_id = t.id }

-- `[model.to_details() for model in models], next_cursor`
unfoldable pub offer_page : Page ExchangeOffer → Action (Page ExchangeOfferDetails)
offer_page (models, next) = do
  items ← collect models (λ o. fetch (Offers.to_details o) missing_relation)
  pure (items, next)

unfoldable pub trade_page : Page TradeContract → Action (Page TradeContractDetails)
trade_page (models, next) = do
  items ← collect models (λ t. fetch (Trades.to_details t) missing_relation)
  pure (items, next)

unfoldable pub list_details_for_request_page :
    (request_id : ℕ) → Option Cursor → (limit : ℕ) → DateRange → Action (Page ExchangeOfferDetails)
unfolding offer_page
list_details_for_request_page request_id cursor limit created = do
  models ← reads (λ d.
      page_of offer_position (λ o. o.request_id == request_id && is_created_in created o.created_at)
        d.offers limit cursor)
  offer_page models

unfoldable pub list_offers_for_request_page :
    (request_id requester_user_id : ℕ)
    → Option Cursor
    → (limit : ℕ) → DateRange
    → Action (Page ExchangeOfferDetails)
unfolding list_details_for_request_page validate_date_range
list_offers_for_request_page request_id requester_user_id cursor limit created = do
  lift (validate_date_range created.created_from created.created_to)
  request ← Requests.get request_id
  raise_if (not (request.creator_user_id == requester_user_id)) authorization_error
  list_details_for_request_page request_id cursor limit created

-- The filters of a user's own offers.
pub record OfferFilters : Type 0 where
  pub statuses : List ExchangeOfferStatus
  pub min_offered_rate : Option Number
  pub max_offered_rate : Option Number
  pub created : DateRange

abbrev pub is_own_offer : ℕ → OfferFilters → ExchangeOffer → Bool
is_own_offer user_id q o =
    o.offer_user_id == user_id
    && passes offer_code q.statuses o.status
    && at_least q.min_offered_rate o.offered_rate
    && at_most q.max_offered_rate o.offered_rate
    && is_created_in q.created o.created_at

unfoldable pub list_details_for_user_page :
    (user_id : ℕ) → Option Cursor → (limit : ℕ) → OfferFilters → Action (Page ExchangeOfferDetails)
unfolding offer_page
list_details_for_user_page user_id cursor limit q = do
  models ← reads (λ d. page_of offer_position (is_own_offer user_id q) d.offers limit cursor)
  offer_page models

unfoldable pub list_my_offers_page :
    (offer_user_id : ℕ)
    → Option Cursor
    → (limit : ℕ) → OfferFilters
    → Action (Page ExchangeOfferDetails)
unfolding list_details_for_user_page validate_range validate_date_range
list_my_offers_page offer_user_id cursor limit q = do
  lift (validate_range q.min_offered_rate q.max_offered_rate)
  lift (validate_date_range q.created.created_from q.created.created_to)
  list_details_for_user_page offer_user_id cursor limit q

abbrev pub is_own_trade : Db → ℕ → List TradeContractStatus → DateRange → TradeContract → Bool
is_own_trade d user_id statuses created t =
    is_participant d user_id t
    && passes trade_code statuses t.status
    && is_created_in created t.created_at

unfoldable pub list_for_participant_page :
    (user_id : ℕ)
    → Option Cursor
    → (limit : ℕ) → List TradeContractStatus
    → DateRange
    → Action (Page TradeContractDetails)
unfolding trade_page
list_for_participant_page user_id cursor limit statuses created = do
  models ←
      reads (λ d.
        page_of trade_position (is_own_trade d user_id statuses created) d.trades limit cursor)
  trade_page models

unfoldable pub list_trades_for_participant_page :
    (participant_user_id : ℕ)
    → Option Cursor
    → (limit : ℕ) → List TradeContractStatus
    → DateRange
    → Action (Page TradeContractDetails)
unfolding list_for_participant_page validate_date_range
list_trades_for_participant_page participant_user_id cursor limit statuses created = do
  lift (validate_date_range created.created_from created.created_to)
  list_for_participant_page participant_user_id cursor limit statuses created
