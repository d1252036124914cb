-- ===== src/Market/Lifecycle.antt =====
-- Every history of the marketplace.
use escrow_fx_marketplace.Common.{ℕ, ◌≡◌, sym, subst, Option, String}
use escrow_fx_marketplace.Domain.Decimal.{Decimal}
use escrow_fx_marketplace.Store.Db.{Db}
use escrow_fx_marketplace.Store.Action.{Env, transact}
use escrow_fx_marketplace.Store.Ensures.{IsSerial}
use escrow_fx_marketplace.Store.Idempotency.{IdempotencyRequest}
use escrow_fx_marketplace.Service.Offers.{create_offer, update_offer, withdraw_offer, reject_offer}
use escrow_fx_marketplace.Service.Requests.{
  create_request, cancel_request, update_request, relist_request,
}
use escrow_fx_marketplace.Service.Terms.{Changes}
use escrow_fx_marketplace.Service.Trades.{accept_offer}
use escrow_fx_marketplace.Service.Expiry.{expire_due_items}
use escrow_fx_marketplace.Market.Invariant.{IsConsistent}
use escrow_fx_marketplace.Market.CloseOffer.{withdraw_offer-IsConsistent, reject_offer-IsConsistent}
use escrow_fx_marketplace.Market.CreateOffer.{create_offer-IsConsistent}
use escrow_fx_marketplace.Market.UpdateOffer.{update_offer-IsConsistent}
use escrow_fx_marketplace.Market.RequestOps.{
  create_request-IsConsistent, relist_request-IsConsistent,
}
use escrow_fx_marketplace.Market.EditRequest.{update_request-IsConsistent}
use escrow_fx_marketplace.Market.CancelRequest.{cancel_request-IsConsistent}
use escrow_fx_marketplace.Market.AcceptOffer.{accept_offer-IsConsistent}
use escrow_fx_marketplace.Market.Expiry.{expire_due_items-IsConsistent}

-- The calls that change requests, offers and trades.
pub data MarketCall : Type 0 where
  create_a_request :
      (creator : ℕ) (from_code to_code : String) (amount preferred : Decimal)
      (minimum : Option Decimal) (q : Option IdempotencyRequest)
      → MarketCall
  update_a_request : (id user : ℕ) (changes : Changes) → MarketCall
  relist_a_request : (id user : ℕ) (changes : Changes) (q : Option IdempotencyRequest) → MarketCall
  cancel_a_request : (id user : ℕ) (q : Option IdempotencyRequest) → MarketCall
  create_an_offer :
      (request_id user : ℕ) (rate : Decimal) (q : Option IdempotencyRequest) → MarketCall
  update_an_offer : (id user : ℕ) (rate : Decimal) → MarketCall
  withdraw_an_offer : (id user : ℕ) (q : Option IdempotencyRequest) → MarketCall
  reject_an_offer : (id user : ℕ) (q : Option IdempotencyRequest) → MarketCall
  accept_an_offer : (id user : ℕ) (q : Option IdempotencyRequest) → MarketCall
  expire_items : MarketCall

-- What is committed after a call, whether it returned or raised.
abbrev pub after_call : Env → MarketCall → Db → Db
after_call env (create_a_request creator from_code to_code amount preferred minimum q) d =
    (transact (create_request creator from_code to_code amount preferred minimum q) env d).1
after_call env (update_a_request id user changes) d =
    (transact (update_request id user changes) env d).1
after_call env (relist_a_request id user changes q) d =
    (transact (relist_request id user changes q) env d).1
after_call env (cancel_a_request id user q) d = (transact (cancel_request id user q) env d).1
after_call env (create_an_offer request_id user rate q) d =
    (transact (create_offer request_id user rate q) env d).1
after_call env (update_an_offer id user rate) d = (transact (update_offer id user rate) env d).1
after_call env (withdraw_an_offer id user q) d = (transact (withdraw_offer id user q) env d).1
after_call env (reject_an_offer id user q) d = (transact (reject_offer id user q) env d).1
after_call env (accept_an_offer id user q) d = (transact (accept_offer id user q) env d).1
after_call env expire_items d = (transact expire_due_items env d).1

-- The databases that calls reach which run one after the other, each at its own clock.
pub data MarketReach (d : Db) : Db → Type 0 where
  here : MarketReach d d
  next :
      {e f : Db}
      → MarketReach d e
      → (env : Env) → IsSerial env
      → (call : MarketCall) → f ≡ after_call env call e
      → MarketReach d f

after_call-IsConsistent :
    (env : Env)
    → IsSerial env
    → (call : MarketCall) (d : Db) → IsConsistent d
    → IsConsistent (after_call env call d)
after_call-IsConsistent env serial (create_a_request c from_code to_code amount p m q) d h =
    create_request-IsConsistent env serial c from_code to_code amount p m q d h
after_call-IsConsistent env serial (update_a_request id user changes) d h =
    update_request-IsConsistent env serial id user changes d h
after_call-IsConsistent env serial (relist_a_request id user changes q) d h =
    relist_request-IsConsistent env serial id user changes q d h
after_call-IsConsistent env serial (cancel_a_request id user q) d h =
    cancel_request-IsConsistent env serial id user q d h
after_call-IsConsistent env serial (create_an_offer request_id user rate q) d h =
    create_offer-IsConsistent env serial request_id user rate q d h
after_call-IsConsistent env serial (update_an_offer id user rate) d h =
    update_offer-IsConsistent env serial id user rate d h
after_call-IsConsistent env serial (withdraw_an_offer id user q) d h =
    withdraw_offer-IsConsistent env serial id user q d h
after_call-IsConsistent env serial (reject_an_offer id user q) d h =
    reject_offer-IsConsistent env serial id user q d h
after_call-IsConsistent env serial (accept_an_offer id user q) d h =
    accept_offer-IsConsistent env serial id user q d h
after_call-IsConsistent env serial expire_items d h = expire_due_items-IsConsistent env serial d h

-- Every sequence of calls that create, edit, relist, cancel and expire requests, and make, change,
-- withdraw, reject, accept and expire offers, one after the other and whatever their outcomes,
-- leaves a marketplace consistent that was so at the start: identifiers are unique, an active
-- offer stands on a pending request, and a trade on a locked request and an accepted offer.
pub MarketReach-IsConsistent : {d e : Db} → MarketReach d e → IsConsistent d → IsConsistent e
MarketReach-IsConsistent here h = h
MarketReach-IsConsistent (next reach env serial call made) h =
    subst IsConsistent (sym made)
      (after_call-IsConsistent env serial call _ (MarketReach-IsConsistent reach h))
