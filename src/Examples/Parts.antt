-- ===== src/Examples/Parts.antt =====
-- The theorems about accounts, idempotency, dispatch and locks.
use escrow_fx_marketplace.Common.{
  ℕ, ◌≡◌, refl, none, some, List, [], ◌∷◌, true, false, Bool, String, arith,
}
use escrow_fx_marketplace.Domain.Enums.{
  UserStatus, ExchangeRequestStatus, OutboxEventStatus, IdempotencyRecordStatus,
}
use escrow_fx_marketplace.Domain.Entities.{User}
use escrow_fx_marketplace.Store.Db.{
  Db, IdempotencyRecord, OutboxEvent, request_details, exchange_request_expired,
}
use escrow_fx_marketplace.Store.Action.{transact, Session, begin}
use escrow_fx_marketplace.Store.Users
use escrow_fx_marketplace.Market.Guards.{IsGuarded}
use escrow_fx_marketplace.Domain.Errors.{ok, err, idempotency_conflict}
use escrow_fx_marketplace.Service.Outcome.{replayed, with_claim}
use escrow_fx_marketplace.Service.Trades.{accept_offer_claimed}
use escrow_fx_marketplace.Service.RoundTrip.{after_completion, completion-replay}
use escrow_fx_marketplace.Service.Replay.{with_claim-replay, with_claim-conflict}
use escrow_fx_marketplace.Service.Dispatch
use escrow_fx_marketplace.Service.Leases.{mark-mark, after_mark}
use escrow_fx_marketplace.Service.Accounts.{deactivate, update_user_status}
use escrow_fx_marketplace.Market.AccountGuards.{
  CanDeactivate, CanChangeStatus, deactivate-IsGuarded, update_user_status-IsGuarded,
}
use escrow_fx_marketplace.Store.Idempotency
use escrow_fx_marketplace.Store.Idempotency.{get_completed}
use escrow_fx_marketplace.Service.Cleanup.{delete_expired-get_completed}
use escrow_fx_marketplace.Examples.Base.{env, user, request, market, key, serial}

abbrev any_password : String → String → Bool
any_password _ _ = true

deactivate-IsGuarded_example :
    IsGuarded
      (CanDeactivate (λ u. any_password "p" u.password_hash) 3 1000 market)
      market
      (transact (deactivate any_password 3 "p") env market).1
deactivate-IsGuarded_example = deactivate-IsGuarded env serial any_password 3 "p" market

update_user_status-IsGuarded_example :
    IsGuarded
      (CanChangeStatus 3 4 UserStatus.suspended market)
      market
      (transact (update_user_status 3 4 UserStatus.suspended) env market).1
update_user_status-IsGuarded_example =
    update_user_status-IsGuarded env serial 3 4 UserStatus.suspended market

abbrev stored : IdempotencyRecordStatus → String → IdempotencyRecord
stored status fingerprint = record {
  id = 70;
  principal_user_id = 1;
  operation_scope = "accept_offer";
  key_hash = "k";
  request_fingerprint = fingerprint;
  status = status;
  response_status_code = some 200;
  response_body = some (request_details (request 10 ExchangeRequestStatus.terms_locked));
  created_at = 0;
  updated_at = 0;
  expires_at = 5000;
  completed_at = none;
}

abbrev keyed : IdempotencyRecordStatus → String → Session
keyed status fingerprint = begin (record market { idempotency = stored status fingerprint ∷ [] })

with_claim-replay_example :
    ((with_claim
        (some key)
        1000
        (accept_offer_claimed 20 1 1000)
        env
        (keyed IdempotencyRecordStatus.completed "f")).0
      ≡ ok (replayed 200 (request_details (request 10 ExchangeRequestStatus.terms_locked))))
    × ((with_claim
          (some key)
          1000
          (accept_offer_claimed 20 1 1000)
          env
          (keyed IdempotencyRecordStatus.completed "f")).1.db
        ≡ (keyed IdempotencyRecordStatus.completed "f").db)
    × ((with_claim
          (some key)
          1000
          (accept_offer_claimed 20 1 1000)
          env
          (keyed IdempotencyRecordStatus.completed "f")).1.base
        ≡ (keyed IdempotencyRecordStatus.completed "f").base)
with_claim-replay_example =
    with_claim-replay env serial key 1000 (stored IdempotencyRecordStatus.completed "f")
      (accept_offer_claimed 20 1 1000) (keyed IdempotencyRecordStatus.completed "f") refl refl 200
      (request_details (request 10 ExchangeRequestStatus.terms_locked)) refl refl refl refl

with_claim-conflict_example :
    ((with_claim
        (some key)
        1000
        (accept_offer_claimed 20 1 1000)
        env
        (keyed IdempotencyRecordStatus.completed "g")).0
      ≡ err idempotency_conflict)
    × ((with_claim
          (some key)
          1000
          (accept_offer_claimed 20 1 1000)
          env
          (keyed IdempotencyRecordStatus.completed "g")).1.db
        ≡ (keyed IdempotencyRecordStatus.completed "g").db)
    × ((with_claim
          (some key)
          1000
          (accept_offer_claimed 20 1 1000)
          env
          (keyed IdempotencyRecordStatus.completed "g")).1.base
        ≡ (keyed IdempotencyRecordStatus.completed "g").base)
with_claim-conflict_example =
    with_claim-conflict env serial key 1000 (stored IdempotencyRecordStatus.completed "g")
      (accept_offer_claimed 20 1 1000) (keyed IdempotencyRecordStatus.completed "g") refl refl refl

abbrev ended : Session
ended =
    after_completion env (stored IdempotencyRecordStatus.processing "f") 201
      (request_details (request 11 ExchangeRequestStatus.request_open)) 1000
      (keyed IdempotencyRecordStatus.processing "f")

completion-replay_example :
    ((with_claim (some key) 2000 (accept_offer_claimed 20 1 2000) env ended).0
      ≡ ok (replayed 201 (request_details (request 11 ExchangeRequestStatus.request_open))))
    × ((with_claim (some key) 2000 (accept_offer_claimed 20 1 2000) env ended).1.db ≡ ended.db)
    × ((with_claim (some key) 2000 (accept_offer_claimed 20 1 2000) env ended).1.base ≡ ended.base)
completion-replay_example =
    completion-replay env serial key (stored IdempotencyRecordStatus.processing "f") 201
      (request_details (request 11 ExchangeRequestStatus.request_open)) 1000
      (keyed IdempotencyRecordStatus.processing "f") refl refl refl 2000
      (accept_offer_claimed 20 1 2000) refl refl

abbrev event : ℕ → OutboxEventStatus → OutboxEvent
event id status = record {
  id = id;
  payload = exchange_request_expired 10;
  aggregate_id = 10;
  recipient_user_id = some 1;
  status = status;
  attempt_count = 0;
  next_attempt_at = some 900;
  last_error = none;
  created_at = id;
  updated_at = 0;
}

abbrev notified : Db
notified = record market {
  outbox = event 81 OutboxEventStatus.pending ∷ event 80 OutboxEventStatus.processing ∷ [];
}

abbrev dispatch_settings : Dispatch.DispatchSettings
dispatch_settings = record {
  batch_size = 50;
  processing_timeout = 300;
  max_attempts = 5;
  retry_base = 30;
  retry_max = 3600;
}

mark-mark_example :
    ((Dispatch.mark 80 900 1001 Dispatch.delivered env
        (after_mark 80 900 1000 Dispatch.delivered env (begin notified))).0
      ≡ ok false)
    × ((Dispatch.mark 80 900 1001 Dispatch.delivered env
          (after_mark 80 900 1000 Dispatch.delivered env (begin notified))).1.db
        ≡ (after_mark 80 900 1000 Dispatch.delivered env (begin notified)).db)
mark-mark_example =
    mark-mark 80 900 1000 1001 Dispatch.delivered Dispatch.delivered env (begin notified) refl

abbrev kept_and_old : Session
kept_and_old =
    let r = stored IdempotencyRecordStatus.completed "f" in
    begin (record market {
      idempotency = record r { id = 71; key_hash = "old"; expires_at = 1100 } ∷ r ∷ [];
    })

delete_expired-get_completed_example :
    (get_completed key 1500 env (Idempotency.delete_expired 1200 10 env kept_and_old).1).0
    ≡ (get_completed key 1500 env kept_and_old).0
delete_expired-get_completed_example =
    delete_expired-get_completed env kept_and_old key 1500 1200 10 ((refl, tt), (tt, tt))
      (omega arith)

abbrev two_users : List User
two_users = user 1 "one" ∷ user 3 "three" ∷ []

abbrev three_locks : List ℕ
three_locks = 3 ∷ 1 ∷ 3 ∷ []
