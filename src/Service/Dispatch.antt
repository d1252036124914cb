-- ===== src/Service/Dispatch.antt =====
-- NotificationDispatchService, app/services/notification_dispatcher.py, over the dispatch methods of
-- SqlAlchemyOutboxEventRepository. The provider is a library's; a run of `send` returns or raises.
use escrow_fx_marketplace.Common.{
  zero, suc, ℕ, ◌+◌, ◌-◌, ◌*◌, ◌^◌, Bool, true, false, ◌&&◌, ◌||◌, Option, none, some, String, List,
  any, map, select, take, length, leb, ◌==◌, is_none, if◌then◌else◌,
}
use escrow_fx_marketplace.Domain.Enums.{OutboxEventStatus}
use escrow_fx_marketplace.Store.Db.{Db, OutboxEvent}
use escrow_fx_marketplace.Store.Action.{
  Action, ◌>>=◌, ◌>>◌, pure, reads, write, utc_now, commit, collect,
}
use escrow_fx_marketplace.Store.Table.{sort_by, update_where}

abbrev pub is_waiting : OutboxEventStatus → Bool
is_waiting OutboxEventStatus.pending = true
is_waiting OutboxEventStatus.failed = true
is_waiting _ = false

abbrev pub is_processing : OutboxEventStatus → Bool
is_processing OutboxEventStatus.processing = true
is_processing _ = false

-- `next_attempt_at <= now`, which no NULL satisfies.
abbrev pub has_passed : Option ℕ → ℕ → Bool
has_passed none now = false
has_passed (some t) now = leb t now

abbrev pub is_dispatchable : ℕ → OutboxEvent → Bool
is_dispatchable now e =
    is_waiting e.status && (is_none e.next_attempt_at || has_passed e.next_attempt_at now)
    || is_processing e.status && has_passed e.next_attempt_at now

abbrev pub start : (now processing_deadline : ℕ) → OutboxEvent → OutboxEvent
start now processing_deadline e = record e {
  status = OutboxEventStatus.processing;
  next_attempt_at = some processing_deadline;
  updated_at = now;
}

-- The rows of the statement: due, oldest first, at most `limit`.
unfoldable pub due_events : (now limit : ℕ) → Db → List OutboxEvent
due_events now limit d =
    take limit
      (sort_by (λ a b. leb a.created_at b.created_at) (select (is_dispatchable now) d.outbox))

-- `claim_due_for_dispatch`
unfoldable pub claim_due_for_dispatch :
    (now processing_deadline limit : ℕ) → Action (List OutboxEvent)
unfolding due_events
claim_due_for_dispatch now processing_deadline limit = do
  rows ← reads (due_events now limit)
  write (λ d. record d {
    outbox =
        update_where (λ e. any (λ row. row.id == e.id) rows) (start now processing_deadline)
          d.outbox;
  })
  pure (map (start now processing_deadline) rows)

-- `next_attempt_at == expected`
abbrev pub is_at : Option ℕ → ℕ → Bool
is_at none expected = false
is_at (some t) expected = t == expected

-- The row is still leased to the dispatcher that claimed it.
abbrev pub is_leased : (event_id expected : ℕ) → OutboxEvent → Bool
is_leased event_id expected e =
    e.id == event_id && is_processing e.status && is_at e.next_attempt_at expected

-- What an attempt makes of the row.
pub record Verdict : Type 0 where
  pub status : OutboxEventStatus
  pub attempt_count : Option ℕ
  pub next_attempt_at : Option ℕ
  pub last_error : Option String

abbrev pub or_else : Option ℕ → ℕ → ℕ
or_else none n = n
or_else (some m) n = m

abbrev pub finalize : (now : ℕ) → Verdict → OutboxEvent → OutboxEvent
finalize now v e = record e {
  status = v.status;
  attempt_count = or_else v.attempt_count e.attempt_count;
  next_attempt_at = v.next_attempt_at;
  last_error = v.last_error;
  updated_at = now;
}

-- `mark_delivered` and `mark_failed` of the repository: an update of the leased row, and whether
-- there was one.
unfoldable pub mark : (event_id expected now : ℕ) → Verdict → Action Bool
mark event_id expected now verdict = do
  finalized ← reads (λ d. any (is_leased event_id expected) d.outbox)
  write (λ d. record d {
    outbox = update_where (is_leased event_id expected) (finalize now verdict) d.outbox;
  })
  pure finalized

abbrev pub delivered : Verdict
delivered = record {
  status = OutboxEventStatus.delivered;
  attempt_count = none;
  next_attempt_at = none;
  last_error = none;
}

pub record DispatchSettings : Type 0 where
  pub batch_size : ℕ
  pub processing_timeout : ℕ
  pub max_attempts : ℕ
  pub retry_base : ℕ
  pub retry_max : ℕ

-- `_retry_delay_seconds`, in the unit of the settings.
unfoldable pub retry_delay : DispatchSettings → (attempt_count : ℕ) → ℕ
retry_delay settings attempt_count =
    let delay : ℕ = settings.retry_base * 2 ^ (attempt_count - 1) in
    if leb delay settings.retry_max then delay else settings.retry_max

-- The verdict of `_mark_failed`.
unfoldable pub failure : DispatchSettings → OutboxEvent → (now : ℕ) → String → Verdict
unfolding retry_delay
failure settings event now error =
    if leb settings.max_attempts (event.attempt_count + 1)
    then record {
      status = OutboxEventStatus.dead;
      attempt_count = some (event.attempt_count + 1);
      next_attempt_at = none;
      last_error = some error;
    }
    else record {
      status = OutboxEventStatus.failed;
      attempt_count = some (event.attempt_count + 1);
      next_attempt_at = some (now + retry_delay settings (event.attempt_count + 1));
      last_error = some error;
    }

-- The body of `_mark_delivered` and `_mark_failed` behind the test of `next_attempt_at`.
unfoldable pub conclude_attempt : Option ℕ → OutboxEvent → (ℕ → Verdict) → Action Bool
unfolding mark
conclude_attempt none event verdict = do _ ← utc_now; pure false
conclude_attempt (some expected) event verdict = do
  now ← utc_now
  finalized ← mark event.id expected now (verdict now)
  commit
  pure finalized

-- One round of the loop of `dispatch_due`: `error` is the text of what the provider raised, cut to
-- the column's 1000 characters, if it raised.
unfoldable pub attempt : DispatchSettings → OutboxEvent → Option String → Action Bool
unfolding conclude_attempt failure
attempt settings event none = conclude_attempt event.next_attempt_at event (λ _. delivered)
attempt settings event (some error) =
    conclude_attempt event.next_attempt_at event (λ now. failure settings event now error)

pub data Attempt : Type 0 where
  attempt_delivered attempt_failed attempt_stale : Attempt

-- Which counter a round increments.
abbrev pub counted_as : Option String → Bool → Attempt
counted_as _ false = attempt_stale
counted_as none true = attempt_delivered
counted_as (some _) true = attempt_failed

abbrev pub is_delivered : Attempt → Bool
is_delivered attempt_delivered = true
is_delivered _ = false

abbrev pub is_failed : Attempt → Bool
is_failed attempt_failed = true
is_failed _ = false

abbrev pub is_stale : Attempt → Bool
is_stale attempt_stale = true
is_stale _ = false

pub record NotificationDispatchResult : Type 0 where
  pub claimed : ℕ
  pub delivered : ℕ
  pub failed : ℕ
  pub stale : ℕ

abbrev pub tally : List OutboxEvent → List Attempt → NotificationDispatchResult
tally events attempts = record {
  claimed = length events;
  delivered = length (select is_delivered attempts);
  failed = length (select is_failed attempts);
  stale = length (select is_stale attempts);
}

unfoldable pub dispatch_one :
    DispatchSettings → (OutboxEvent → Option String) → OutboxEvent → Action Attempt
unfolding attempt
dispatch_one settings send event = do
  finalized ← attempt settings event (send event)
  pure (counted_as (send event) finalized)

-- `limit or self._batch_size`
abbrev pub batch_limit : DispatchSettings → Option ℕ → ℕ
batch_limit settings none = settings.batch_size
batch_limit settings (some zero) = settings.batch_size
batch_limit settings (some (suc n)) = suc n

-- `dispatch_due`, with the error of each `send`, if it raises, as a parameter. Each commit ends a
-- transaction, and the next statement begins another.
unfoldable pub dispatch_due :
    DispatchSettings
    → (send : OutboxEvent → Option String) → (limit : Option ℕ) → Action NotificationDispatchResult
unfolding claim_due_for_dispatch dispatch_one
dispatch_due settings send limit = do
  now ← utc_now
  events ←
      claim_due_for_dispatch now (now + settings.processing_timeout) (batch_limit settings limit)
  commit
  attempts ← collect events (dispatch_one settings send)
  pure (tally events attempts)
