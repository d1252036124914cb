-- ===== src/Examples/Mutations.antt =====
-- The theorems about the mutations of the marketplace, at it.
use escrow_fx_marketplace.Market.EditGuards.{CanEdit, update_request-IsGuarded}
use escrow_fx_marketplace.Common.{refl, none, some}
use escrow_fx_marketplace.Domain.Decimal.{finite}
use escrow_fx_marketplace.Store.Action.{transact}
use escrow_fx_marketplace.Service.Offers.{create_offer, update_offer, withdraw_offer, reject_offer}
use escrow_fx_marketplace.Service.Requests.{
  create_request, cancel_request, update_request, relist_request,
}
use escrow_fx_marketplace.Service.Trades.{accept_offer}
use escrow_fx_marketplace.Service.Expiry.{expire_due_items}
use escrow_fx_marketplace.Market.Invariant.{IsConsistent}
use escrow_fx_marketplace.Market.CloseOffer.{withdraw_offer-IsConsistent, reject_offer-IsConsistent}
use escrow_fx_marketplace.Market.CreateOffer.{create_offer-IsConsistent}
use escrow_fx_marketplace.Market.Lifecycle.{
  after_call, accept_an_offer, here, next, MarketReach-IsConsistent,
}
use escrow_fx_marketplace.Market.CreateRequestGuard.{CanRequest, create_request-IsGuarded}
use escrow_fx_marketplace.Market.RelistGuard.{CanRelist, relist_request-IsGuarded}
use escrow_fx_marketplace.Market.UpdateOfferGuard.{CanReprice, update_offer-IsGuarded}
use escrow_fx_marketplace.Market.CancelRequest.{cancel_request-IsConsistent}
use escrow_fx_marketplace.Market.AcceptOffer.{accept_offer-IsConsistent}
use escrow_fx_marketplace.Market.Expiry.{IsSweptFrom, expire_due_items-IsSweptFrom}
use escrow_fx_marketplace.Market.Accepted.{IsAcceptedFrom, accept_offer-IsAcceptedFrom}
use escrow_fx_marketplace.Market.Guards.{IsGuarded}
use escrow_fx_marketplace.Market.OfferGuards.{
  CanWithdraw, CanReject, withdraw_offer-IsGuarded, reject_offer-IsGuarded,
}
use escrow_fx_marketplace.Market.CreateOfferGuard.{CanOffer, create_offer-IsGuarded}
use escrow_fx_marketplace.Market.RequestGuards.{CanCancel, cancel_request-IsGuarded}
use escrow_fx_marketplace.Examples.Base.{
  env, late_env, late_serial, number, market, key, new_terms, serial, market-IsConsistent,
}

accept_offer-IsAcceptedFrom_example :
    IsAcceptedFrom 20 1 1000 market
      (transact (accept_offer 20 1 (some key)) env market).0
      (transact (accept_offer 20 1 (some key)) env market).1
accept_offer-IsAcceptedFrom_example = accept_offer-IsAcceptedFrom env serial 20 1 (some key) market

accept_offer-IsConsistent_example :
    IsConsistent (transact (accept_offer 20 1 (some key)) env market).1
accept_offer-IsConsistent_example =
    accept_offer-IsConsistent env serial 20 1 (some key) market market-IsConsistent

expire_due_items-IsSweptFrom_example :
    IsSweptFrom 9000 market
      (transact expire_due_items late_env market).0
      (transact expire_due_items late_env market).1
expire_due_items-IsSweptFrom_example =
    expire_due_items-IsSweptFrom late_env late_serial market market-IsConsistent

cancel_request-IsConsistent_example :
    IsConsistent (transact (cancel_request 10 1 none) env market).1
cancel_request-IsConsistent_example =
    cancel_request-IsConsistent env serial 10 1 none market market-IsConsistent

create_offer-IsConsistent_example :
    IsConsistent (transact (create_offer 11 3 (finite (number 3)) none) env market).1
create_offer-IsConsistent_example =
    create_offer-IsConsistent env serial 11 3 (finite (number 3)) none market market-IsConsistent

withdraw_offer-IsConsistent_example :
    IsConsistent (transact (withdraw_offer 20 2 none) env market).1
withdraw_offer-IsConsistent_example =
    withdraw_offer-IsConsistent env serial 20 2 none market market-IsConsistent

reject_offer-IsConsistent_example : IsConsistent (transact (reject_offer 20 1 none) env market).1
reject_offer-IsConsistent_example =
    reject_offer-IsConsistent env serial 20 1 none market market-IsConsistent

withdraw_offer-IsGuarded_example :
    IsGuarded
      (CanWithdraw 20 2 1000 market)
      market
      (transact (withdraw_offer 20 2 none) env market).1
withdraw_offer-IsGuarded_example = withdraw_offer-IsGuarded env serial 20 2 none market

reject_offer-IsGuarded_example :
    IsGuarded (CanReject 20 1 1000 market) market (transact (reject_offer 20 1 none) env market).1
reject_offer-IsGuarded_example = reject_offer-IsGuarded env serial 20 1 none market

cancel_request-IsGuarded_example :
    IsGuarded (CanCancel 10 1 1000 market) market (transact (cancel_request 10 1 none) env market).1
cancel_request-IsGuarded_example = cancel_request-IsGuarded env serial 10 1 none market

create_offer-IsGuarded_example :
    IsGuarded
      (CanOffer 11 3 (finite (number 3)) 1000 market)
      market
      (transact (create_offer 11 3 (finite (number 3)) none) env market).1
create_offer-IsGuarded_example =
    create_offer-IsGuarded env serial 11 3 (finite (number 3)) none market

update_request-IsGuarded_example :
    IsGuarded
      (CanEdit 11 1 new_terms 1000 market)
      market
      (transact (update_request 11 1 new_terms) env market).1
update_request-IsGuarded_example = update_request-IsGuarded env serial 11 1 new_terms market

create_request-IsGuarded_example :
    IsGuarded
      (CanRequest 2 "NGN" "USD" (finite (number 700)) (finite (number 3)) none market)
      market
      (transact
        (create_request 2 "NGN" "USD" (finite (number 700)) (finite (number 3)) none none)
        env
        market).1
create_request-IsGuarded_example =
    create_request-IsGuarded env serial 2 "NGN" "USD" (finite (number 700)) (finite (number 3)) none
      none market

relist_request-IsGuarded_example :
    IsGuarded
      (CanRelist 12 1 new_terms market)
      market
      (transact (relist_request 12 1 new_terms none) env market).1
relist_request-IsGuarded_example = relist_request-IsGuarded env serial 12 1 new_terms none market

update_offer-IsGuarded_example :
    IsGuarded
      (CanReprice 20 2 (finite (number 4)) 1000 market)
      market
      (transact (update_offer 20 2 (finite (number 4))) env market).1
update_offer-IsGuarded_example = update_offer-IsGuarded env serial 20 2 (finite (number 4)) market

MarketReach-IsConsistent_example :
    IsConsistent (after_call env (accept_an_offer 20 1 (some key)) market)
MarketReach-IsConsistent_example =
    MarketReach-IsConsistent (next here env serial (accept_an_offer 20 1 (some key)) refl)
      market-IsConsistent
