-- ===== src/Examples/Listing.antt =====
-- The theorems about pages.
use escrow_fx_marketplace.Common.{◌≡◌, refl, none, some, [], ◌∷◌, Bool, true, All, arith, length}
use escrow_fx_marketplace.Domain.Errors.{ok}
use escrow_fx_marketplace.Domain.Entities.{ExchangeRequest, ExchangeOfferDetails}
use escrow_fx_marketplace.Domain.Enums.{ExchangeRequestStatus, ExchangeOfferStatus}
use escrow_fx_marketplace.Store.Table.{sort_by}
use escrow_fx_marketplace.Store.Requests
use escrow_fx_marketplace.Store.Offers
use escrow_fx_marketplace.Store.Action.{
  begin, ◌>>=◌, ◌>>◌, utc_now, reads, lift, fetch, raise_if, collect, pure,
}
use escrow_fx_marketplace.Pages.Cursor.{ordered, page_of, page_cursor, validate_date_range}
use escrow_fx_marketplace.Pages.Order.{IsDistinct}
use escrow_fx_marketplace.Pages.Filters.{DateRange}
use escrow_fx_marketplace.Pages.Board.{BoardFilters, request_position, list_board_details_page}
use escrow_fx_marketplace.Pages.Dealings.{
  offer_page, list_details_for_request_page, list_offers_for_request_page,
}
use escrow_fx_marketplace.Pages.Complete.{follow_pages, follow_pages-eq-ordered}
use escrow_fx_marketplace.Pages.Visible.{IsShown, list_board_details_page-IsShown}
use escrow_fx_marketplace.Pages.Creator.{IsCreator, list_offers_for_request_page-IsForCreator}
use escrow_fx_marketplace.Examples.Base.{env, market, number, request, offer}

abbrev any_request : ExchangeRequest → Bool
any_request r = true

requests-IsDistinct : IsDistinct request_position market.requests
requests-IsDistinct = ((refl, (refl, (refl, tt))), ((refl, (refl, tt)), ((refl, tt), (tt, tt))))

four : length (ordered request_position any_request market.requests) ≡ 4
unfolding ordered sort_by
four = refl

follow_pages-eq-ordered_example :
    follow_pages request_position any_request market.requests 2 5 none
    ≡ ordered request_position any_request market.requests
follow_pages-eq-ordered_example =
    follow_pages-eq-ordered request_position any_request market.requests 2 5 (omega arith)
      requests-IsDistinct (omega (arith, four))

abbrev any_time : DateRange
any_time = record { created_from = none; created_to = none }

abbrev large : BoardFilters
large = record {
  statuses = [];
  from_currency_code = some "NGN";
  to_currency_code = none;
  min_amount = some (number 400);
  max_amount = none;
  min_preferred_rate = none;
  max_preferred_rate = none;
  created = any_time;
}

abbrev newest : ExchangeRequest
newest = request 11 ExchangeRequestStatus.request_open

first_page :
    list_board_details_page 2 none 1 large env (begin market)
    ≡ (ok (newest ∷ [], some (request_position newest)), record (begin market) { ticks = 1 })
unfolding list_board_details_page page_of page_cursor ordered sort_by ◌>>=◌ utc_now reads
first_page = refl

list_board_details_page-IsShown_example : All (IsShown env (begin market) 2 large) (newest ∷ [])
list_board_details_page-IsShown_example =
    list_board_details_page-IsShown env (begin market) (record (begin market) { ticks = 1 }) 2 none
      1 large (newest ∷ []) (some (request_position newest)) requests-IsDistinct first_page

abbrev only_offer : ExchangeOfferDetails
only_offer = record {
  offer = offer 20 10 ExchangeOfferStatus.active;
  request_status = ExchangeRequestStatus.offer_pending;
  request_from_amount = number 500;
  request_preferred_rate = number 3;
  request_expires_at = 5000;
}

offers_page :
    list_offers_for_request_page 10 1 none 5 any_time env (begin market)
    ≡ (ok (only_offer ∷ [], none), begin market)
unfolding list_offers_for_request_page list_details_for_request_page offer_page page_of page_cursor
    ordered sort_by ◌>>=◌ ◌>>◌ lift validate_date_range Requests.get fetch raise_if reads collect
    Offers.to_details Offers.details_with pure
offers_page = refl

list_offers_for_request_page-IsForCreator_example :
    IsCreator 10 1 market × All (λ x. x.offer.request_id ≡ 10) (only_offer ∷ [])
list_offers_for_request_page-IsForCreator_example =
    list_offers_for_request_page-IsForCreator env (begin market) (begin market) 10 1 none 5 any_time
      (only_offer ∷ []) none offers_page
