-- ===== src/Pages/Filters.antt =====
-- The filters of the lists: `validate_range`, and the optional conditions of a list's statement.
use escrow_fx_marketplace.Common.{
  ℕ, Bool, true, false, not, ◌&&◌, Option, none, some, List, [], ◌∷◌, any, leb, ◌==◌,
}
use escrow_fx_marketplace.Domain.Decimal.{Number, ltb_number}
use escrow_fx_marketplace.Domain.Enums.{
  ExchangeRequestStatus, ExchangeOfferStatus, TradeContractStatus,
}
use escrow_fx_marketplace.Domain.Errors.{Result, ok, err, invariant_violation}

-- `validate_range` on amounts and on rates
unfoldable pub validate_range : Option Number → Option Number → Result (Unit {0})
validate_range (some minimum) (some maximum) = elim (ltb_number maximum minimum) [
  | true ↦ err invariant_violation
  | false ↦ ok tt
]
validate_range _ _ = ok tt

-- `created_from` and `created_to`
pub record DateRange : Type 0 where
  pub created_from : Option ℕ
  pub created_to : Option ℕ

abbrev pub not_before : Option ℕ → ℕ → Bool
not_before none at = true
not_before (some start) at = leb start at

abbrev pub not_after : Option ℕ → ℕ → Bool
not_after none at = true
not_after (some end) at = leb at end

abbrev pub is_created_in : DateRange → ℕ → Bool
is_created_in range at = not_before range.created_from at && not_after range.created_to at

abbrev pub at_least : Option Number → Number → Bool
at_least none x = true
at_least (some minimum) x = not (ltb_number x minimum)

abbrev pub at_most : Option Number → Number → Bool
at_most none x = true
at_most (some maximum) x = not (ltb_number maximum x)

-- A status by its place in the enumeration.
abbrev pub request_code : ExchangeRequestStatus → ℕ
request_code ExchangeRequestStatus.request_open = 0
request_code ExchangeRequestStatus.offer_pending = 1
request_code ExchangeRequestStatus.terms_locked = 2
request_code ExchangeRequestStatus.cancelled = 3
request_code ExchangeRequestStatus.expired = 4

abbrev pub offer_code : ExchangeOfferStatus → ℕ
offer_code ExchangeOfferStatus.active = 0
offer_code ExchangeOfferStatus.accepted = 1
offer_code ExchangeOfferStatus.rejected = 2
offer_code ExchangeOfferStatus.expired = 3
offer_code ExchangeOfferStatus.withdrawn = 4

abbrev pub trade_code : TradeContractStatus → ℕ
trade_code TradeContractStatus.terms_locked = 0
trade_code TradeContractStatus.awaiting_dual_funding = 1
trade_code TradeContractStatus.one_leg_funded = 2
trade_code TradeContractStatus.dual_funded = 3
trade_code TradeContractStatus.releasing = 4
trade_code TradeContractStatus.settled = 5
trade_code TradeContractStatus.expired_refunding = 6
trade_code TradeContractStatus.cancelled = 7
trade_code TradeContractStatus.disputed = 8

module _ {S : Type 0} (code : S → ℕ) where
  -- `status in statuses`
  abbrev pub is_one_of : List S → S → Bool
  is_one_of statuses status = any (λ x. code x == code status) statuses

  -- `if statuses: where(status.in_(statuses))`
  abbrev pub passes : List S → S → Bool
  passes [] status = true
  passes (x ∷ xs) status = is_one_of (x ∷ xs) status
