-- ===== src/Domain/Lifecycle.antt =====
-- app/domain/lifecycle.py: membership in the frozen sets of statuses.
use escrow_fx_marketplace.Common.{Bool, true, false}
use escrow_fx_marketplace.Domain.Enums.{ExchangeRequestStatus, ExchangeOfferStatus}

-- `status in REQUEST_BOARD_STATUSES`
abbrev pub request_can_accept_offers : ExchangeRequestStatus → Bool
request_can_accept_offers ExchangeRequestStatus.request_open = true
request_can_accept_offers ExchangeRequestStatus.offer_pending = true
request_can_accept_offers _ = false

abbrev pub request_can_be_edited : ExchangeRequestStatus → Bool
request_can_be_edited ExchangeRequestStatus.request_open = true
request_can_be_edited _ = false

-- `REQUEST_CANCELLABLE_STATUSES = REQUEST_BOARD_STATUSES`
abbrev pub request_can_be_cancelled : ExchangeRequestStatus → Bool
request_can_be_cancelled status = request_can_accept_offers status

-- `status in REQUEST_RELISTABLE_STATUSES`
abbrev pub request_can_be_relisted : ExchangeRequestStatus → Bool
request_can_be_relisted ExchangeRequestStatus.cancelled = true
request_can_be_relisted ExchangeRequestStatus.expired = true
request_can_be_relisted _ = false

abbrev pub offer_is_active : ExchangeOfferStatus → Bool
offer_is_active ExchangeOfferStatus.active = true
offer_is_active _ = false
