-- ===== src/Service/Expiry.antt =====
-- MarketplaceExpiryService, app/services/marketplace_expiry.py.
use escrow_fx_marketplace.Common.{ℕ, none, some, [], ◌∷◌, length}
use escrow_fx_marketplace.Domain.Entities.{ExchangeRequest, ExchangeOffer, TradeContractDetails}
use escrow_fx_marketplace.Store.Db.{
  Reason, exchange_request_expired, exchange_request_reopened, exchange_offer_expired,
  trade_contract_cancelled, marketplace_expiry_completed,
}
use escrow_fx_marketplace.Store.Action.{Action, ◌>>=◌, ◌>>◌, pure, for_each, utc_now, commit}
use escrow_fx_marketplace.Store.Requests
use escrow_fx_marketplace.Store.Offers
use escrow_fx_marketplace.Store.Trades
use escrow_fx_marketplace.Store.Outbox.{publish}

pub record MarketplaceExpiryResult : Type 0 where
  pub expired_requests : ℕ
  pub expired_offers : ℕ
  pub reopened_requests : ℕ
  pub cancelled_trades : ℕ

unfoldable pub announce_expired_request : ExchangeRequest → Action Unit
announce_expired_request r = publish (exchange_request_expired r.id) r.id (some r.creator_user_id)

unfoldable pub announce_expired_offer : ExchangeOffer → Action Unit
announce_expired_offer o =
    publish (exchange_offer_expired o.id o.request_id) o.id (some o.offer_user_id)

unfoldable pub announce_reopened : ExchangeRequest → Action Unit
announce_reopened r = publish (exchange_request_reopened r.id) r.id (some r.creator_user_id)

unfoldable pub announce_cancelled : TradeContractDetails → Action Unit
announce_cancelled t = for_each (t.requester_user_id ∷ t.counterparty_user_id ∷ []) (λ recipient.
    publish (trade_contract_cancelled t.trade.id t.trade.request_id Reason.funding_deadline_expired)
      t.trade.id (some recipient))

-- `SYSTEM_AGGREGATE_ID`
abbrev pub system_aggregate_id : ℕ
system_aggregate_id = 0

-- `expire_due_items`
unfoldable pub expire_due_items : Action MarketplaceExpiryResult
unfolding announce_expired_request announce_expired_offer announce_reopened announce_cancelled
expire_due_items = do
  now ← utc_now
  expired_requests ← Requests.expire_due now
  expired_offers ← Offers.expire_due now
  reopened ← Requests.reopen_pending_without_active_offers now
  cancelled ← Trades.cancel_due_unfunded now
  for_each expired_requests announce_expired_request
  for_each expired_offers announce_expired_offer
  for_each reopened announce_reopened
  for_each cancelled announce_cancelled
  publish
      (marketplace_expiry_completed (length expired_requests) (length expired_offers)
        (length reopened) (length cancelled))
      system_aggregate_id none
  commit
  pure (record {
    expired_requests = length expired_requests;
    expired_offers = length expired_offers;
    reopened_requests = length reopened;
    cancelled_trades = length cancelled;
  })
