-- ===== src/Pages/Admin.antt =====
-- The lists of the administration: the pages of app/services/admin.py over users, offers, trades
-- and KYC verifications. The one over requests is in Pages/Board.
use escrow_fx_marketplace.Common.{ℕ, Bool, true, ◌&&◌, Option, none, some, List, [], ◌∷◌, ◌==◌}
use escrow_fx_marketplace.Domain.Enums.{UserStatus, ExchangeOfferStatus, TradeContractStatus}
use escrow_fx_marketplace.Domain.Identity.{KycVerification, KycVerificationStatus}
use escrow_fx_marketplace.Domain.Errors.{Result, ok, err, invariant_violation}
use escrow_fx_marketplace.Domain.Entities.{User, ExchangeOfferDetails, TradeContractDetails}
use escrow_fx_marketplace.Store.Action.{Action, ◌>>=◌, ◌>>◌, reads, lift}
use escrow_fx_marketplace.Store.Verifications.{has_status}
use escrow_fx_marketplace.Pages.Cursor.{Cursor, page_of, validate_date_range}
use escrow_fx_marketplace.Pages.Filters.{DateRange, is_created_in, offer_code, trade_code, passes}
use escrow_fx_marketplace.Pages.Board.{Page}
use escrow_fx_marketplace.Pages.Dealings.{offer_position, trade_position, offer_page, trade_page}

abbrev pub user_position : User → Cursor
user_position u = record { created_at = u.created_at; item_id = u.id }

abbrev pub user_status_code : UserStatus → ℕ
user_status_code UserStatus.active = 0
user_status_code UserStatus.suspended = 1
user_status_code UserStatus.inactive = 2

-- `if status is not None: where(UserModel.status == status)`
abbrev pub has_user_status : Option UserStatus → User → Bool
has_user_status none u = true
has_user_status (some status) u = user_status_code u.status == user_status_code status

unfoldable pub list_users_page :
    Option UserStatus → Option Cursor → (limit : ℕ) → Action (Page User)
list_users_page status cursor limit =
    reads (λ d. page_of user_position (has_user_status status) d.users limit cursor)

unfoldable pub list_admin_offer_details_page :
    Option Cursor
    → (limit : ℕ) → List ExchangeOfferStatus
    → DateRange
    → Action (Page ExchangeOfferDetails)
unfolding offer_page
list_admin_offer_details_page cursor limit statuses created = do
  models ← reads (λ d.
      page_of offer_position
        (λ o. passes offer_code statuses o.status && is_created_in created o.created_at) d.offers
        limit cursor)
  offer_page models

unfoldable pub list_exchange_offers_page :
    Option Cursor
    → (limit : ℕ) → List ExchangeOfferStatus
    → DateRange
    → Action (Page ExchangeOfferDetails)
unfolding list_admin_offer_details_page validate_date_range
list_exchange_offers_page cursor limit statuses created = do
  lift (validate_date_range created.created_from created.created_to)
  list_admin_offer_details_page cursor limit statuses created

unfoldable pub list_admin_trade_details_page :
    Option Cursor
    → (limit : ℕ) → List TradeContractStatus
    → DateRange
    → Action (Page TradeContractDetails)
unfolding trade_page
list_admin_trade_details_page cursor limit statuses created = do
  models ← reads (λ d.
      page_of trade_position
        (λ t. passes trade_code statuses t.status && is_created_in created t.created_at) d.trades
        limit cursor)
  trade_page models

unfoldable pub list_trades_page :
    Option Cursor
    → (limit : ℕ) → List TradeContractStatus
    → DateRange
    → Action (Page TradeContractDetails)
unfolding list_admin_trade_details_page validate_date_range
list_trades_page cursor limit statuses created = do
  lift (validate_date_range created.created_from created.created_to)
  list_admin_trade_details_page cursor limit statuses created

-- `resolve_status_filters`
unfoldable pub resolve_status_filters : {S : Type 0} → Option S → List S → Result (List S)
resolve_status_filters (some status) (x ∷ xs) = err invariant_violation
resolve_status_filters none (x ∷ xs) = ok (x ∷ xs)
resolve_status_filters (some status) [] = ok (status ∷ [])
resolve_status_filters none [] = ok []

abbrev pub verification_position : KycVerification → Cursor
verification_position v = record { created_at = v.created_at; item_id = v.id }

unfoldable pub list_kyc_verifications_page :
    Option KycVerificationStatus → Option Cursor → (limit : ℕ) → Action (Page KycVerification)
list_kyc_verifications_page status cursor limit =
    reads (λ d. page_of verification_position (has_status status) d.verifications limit cursor)
