-- ===== src/Pages/Board.antt =====
-- The lists of requests: the pages of `SqlAlchemyExchangeRequestRepository`, and their operations
-- in app/services/exchange_request.py and app/services/admin.py.
use escrow_fx_marketplace.Common.{
  ℕ, Bool, true, ◌&&◌, Option, none, some, String, List, [], ◌∷◌, any, select, ◌==◌,
}
use escrow_fx_marketplace.Domain.Decimal.{Number}
use escrow_fx_marketplace.Domain.Enums.{ExchangeRequestStatus}
use escrow_fx_marketplace.Domain.Entities.{ExchangeRequest}
use escrow_fx_marketplace.Store.Db.{Db}
use escrow_fx_marketplace.Store.Action.{Action, ◌>>=◌, ◌>>◌, reads, lift, utc_now}
use escrow_fx_marketplace.Store.Requests.{is_on_board}
use escrow_fx_marketplace.Pages.Cursor.{Cursor, page_of, validate_date_range}
use escrow_fx_marketplace.Pages.Filters.{
  validate_range, DateRange, is_created_in, at_least, at_most, request_code, is_one_of, passes,
}
use text.Mathlib.Text.{◌==◌ as str_eq}

abbrev pub request_position : ExchangeRequest → Cursor
request_position r = record { created_at = r.created_at; item_id = r.id }

abbrev pub Page : Type 0 → Type 0
Page A = List A × Option Cursor

-- The filters of the board; no statuses and `none` are filters that are not given.
pub record BoardFilters : Type 0 where
  pub statuses : List ExchangeRequestStatus
  pub from_currency_code : Option String
  pub to_currency_code : Option String
  pub min_amount : Option Number
  pub max_amount : Option Number
  pub min_preferred_rate : Option Number
  pub max_preferred_rate : Option Number
  pub created : DateRange

-- `_board_visible_statuses`
abbrev pub board_visible_statuses : List ExchangeRequestStatus
board_visible_statuses =
    ExchangeRequestStatus.request_open ∷ ExchangeRequestStatus.offer_pending ∷ []

-- `statuses or tuple(self._board_visible_statuses())`
abbrev pub wanted_statuses : List ExchangeRequestStatus → List ExchangeRequestStatus
wanted_statuses [] = board_visible_statuses
wanted_statuses (x ∷ xs) = x ∷ xs

abbrev pub visible_statuses : List ExchangeRequestStatus → List ExchangeRequestStatus
visible_statuses statuses =
    select (is_one_of request_code board_visible_statuses) (wanted_statuses statuses)

-- `currency.has(CurrencyModel.code == code)`
abbrev pub has_code : Db → Option String → ℕ → Bool
has_code d none currency_id = true
has_code d (some code) currency_id =
    any (λ c. c.id == currency_id && str_eq c.code code) d.currencies

abbrev pub matches : Db → BoardFilters → ExchangeRequest → Bool
matches d q r =
    is_one_of request_code (visible_statuses q.statuses) r.status
    && has_code d q.from_currency_code r.from_currency_id
    && has_code d q.to_currency_code r.to_currency_id
    && at_least q.min_amount r.from_amount
    && at_most q.max_amount r.from_amount
    && at_least q.min_preferred_rate r.preferred_rate
    && at_most q.max_preferred_rate r.preferred_rate
    && is_created_in q.created r.created_at

-- The board's statement. The statuses that it admits are among those of `is_on_board`.
abbrev pub is_listed : Db → ℕ → ℕ → BoardFilters → ExchangeRequest → Bool
is_listed d viewer now q r = is_on_board d viewer now r && matches d q r

unfoldable pub list_board_details_page :
    (viewer : ℕ) → Option Cursor → (limit : ℕ) → BoardFilters → Action (Page ExchangeRequest)
list_board_details_page viewer cursor limit q = do
  now ← utc_now
  reads (λ d. page_of request_position (is_listed d viewer now q) d.requests limit cursor)

unfoldable pub list_board_requests_page :
    (viewer : ℕ) → Option Cursor → (limit : ℕ) → BoardFilters → Action (Page ExchangeRequest)
unfolding list_board_details_page validate_range validate_date_range
list_board_requests_page viewer cursor limit q = do
  lift (validate_range q.min_amount q.max_amount)
  lift (validate_range q.min_preferred_rate q.max_preferred_rate)
  lift (validate_date_range q.created.created_from q.created.created_to)
  list_board_details_page viewer cursor limit q

abbrev pub is_own : ℕ → List ExchangeRequestStatus → DateRange → ExchangeRequest → Bool
is_own user_id statuses created r =
    r.creator_user_id == user_id
    && passes request_code statuses r.status
    && is_created_in created r.created_at

unfoldable pub list_details_for_user_page :
    (user_id : ℕ)
    → Option Cursor
    → (limit : ℕ) → List ExchangeRequestStatus
    → DateRange
    → Action (Page ExchangeRequest)
list_details_for_user_page user_id cursor limit statuses created =
    reads (λ d. page_of request_position (is_own user_id statuses created) d.requests limit cursor)

unfoldable pub list_requests_for_user_page :
    (user_id : ℕ)
    → Option Cursor
    → (limit : ℕ) → List ExchangeRequestStatus
    → DateRange
    → Action (Page ExchangeRequest)
unfolding list_details_for_user_page validate_date_range
list_requests_for_user_page user_id cursor limit statuses created = do
  lift (validate_date_range created.created_from created.created_to)
  list_details_for_user_page user_id cursor limit statuses created

unfoldable pub list_admin_details_page :
    Option Cursor
    → (limit : ℕ) → List ExchangeRequestStatus
    → DateRange
    → Action (Page ExchangeRequest)
list_admin_details_page cursor limit statuses created = reads (λ d.
    page_of request_position
      (λ r. passes request_code statuses r.status && is_created_in created r.created_at) d.requests
      limit cursor)

unfoldable pub list_exchange_requests_page :
    Option Cursor
    → (limit : ℕ) → List ExchangeRequestStatus
    → DateRange
    → Action (Page ExchangeRequest)
unfolding list_admin_details_page validate_date_range
list_exchange_requests_page cursor limit statuses created = do
  lift (validate_date_range created.created_from created.created_to)
  list_admin_details_page cursor limit statuses created
