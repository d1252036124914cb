-- ===== src/Store/Outbox.antt =====
-- app/services/outbox.py, the publisher, over `SqlAlchemyOutboxEventRepository.add`.
use escrow_fx_marketplace.Common.{ℕ, not, Option, none, some, [], ◌∷◌, ◌++◌, any, ◌==◌}
use escrow_fx_marketplace.Domain.Errors.{conflict}
use escrow_fx_marketplace.Domain.Enums.{OutboxEventStatus}
use escrow_fx_marketplace.Store.Db.{OutboxEvent, Payload}
use escrow_fx_marketplace.Store.Action.{Action, ◌>>=◌, write_if, utc_now, uuid4}

unfoldable pub add : OutboxEvent → Action Unit
add event =
    write_if (λ d. not (any (λ e. e.id == event.id) d.outbox)) conflict
      (λ d. record d { outbox = d.outbox ++ event ∷ [] })

-- `build_outbox_event` and `OutboxEventPublisher._add`
unfoldable pub publish : Payload → ℕ → Option ℕ → Action Unit
unfolding add
publish payload aggregate_id recipient_user_id = do
  current_time ← utc_now
  id ← uuid4
  add (record {
    id = id;
    payload = payload;
    aggregate_id = aggregate_id;
    recipient_user_id = recipient_user_id;
    status = OutboxEventStatus.pending;
    attempt_count = 0;
    next_attempt_at = some current_time;
    last_error = none;
    created_at = current_time;
    updated_at = current_time;
  })
