-- ===== src/Store/Idempotency.antt =====
-- SqlAlchemyIdempotencyRecordRepository, and the helpers of app/infrastructure/idempotency.py.
use escrow_fx_marketplace.Common.{
  ◌||◌, ℕ, ◌+◌, ◌*◌, Bool, true, false, not, ◌&&◌, Option, none, some, String, List, [], ◌∷◌, ◌++◌,
  any, find, select, take, length, leb, ltb, ◌==◌, if◌then◌else◌,
}
use escrow_fx_marketplace.Domain.Errors.{
  Result, ok, err, conflict, not_found, idempotency_conflict, idempotency_in_progress,
  integrity_error,
}
use escrow_fx_marketplace.Domain.Enums.{IdempotencyRecordStatus}
use escrow_fx_marketplace.Store.Db.{Db, IdempotencyRecord, Response}
use escrow_fx_marketplace.Store.Action.{
  Action, ◌>>=◌, ◌>>◌, pure, reads, fetch, lift, raise_if, write, write_if, uuid4, wait,
}
use escrow_fx_marketplace.Store.Table.{update_where, sort_by}
use text.Mathlib.Text.{◌==◌ as str_eq}

-- `IdempotencyRequest`
pub record IdempotencyRequest : Type 0 where
  pub principal_user_id : ℕ
  pub operation_scope : String
  pub key_hash : String
  pub request_fingerprint : String

-- `settings.idempotency_processing_timeout_seconds` and `idempotency_retention_hours`.
abbrev pub processing_timeout : ℕ
processing_timeout = 300 * 1_000_000

abbrev pub retention : ℕ
retention = 24 * 3600 * 1_000_000

-- The unique constraint on principal, scope and key.
abbrev pub same_key : IdempotencyRequest → IdempotencyRecord → Bool
same_key q r =
    r.principal_user_id == q.principal_user_id
    && str_eq r.operation_scope q.operation_scope
    && str_eq r.key_hash q.key_hash

abbrev pub is_processing : IdempotencyRecordStatus → Bool
is_processing IdempotencyRecordStatus.processing = true
is_processing IdempotencyRecordStatus.completed = false

abbrev pub fresh_record : ℕ → IdempotencyRequest → ℕ → IdempotencyRecord
fresh_record id q now = record {
  id = id;
  principal_user_id = q.principal_user_id;
  operation_scope = q.operation_scope;
  key_hash = q.key_hash;
  request_fingerprint = q.request_fingerprint;
  status = IdempotencyRecordStatus.processing;
  response_status_code = none;
  response_body = none;
  created_at = now;
  updated_at = now;
  expires_at = now + processing_timeout;
  completed_at = none;
}

abbrev pub insert : IdempotencyRecord → Db → Db
insert r d = record d { idempotency = d.idempotency ++ r ∷ [] }

abbrev pub id_is_free : IdempotencyRecord → Db → Bool
id_is_free r d = not (any (λ x. x.id == r.id) d.idempotency)

abbrev pub remove : ℕ → Db → Db
remove id d = record d { idempotency = select (λ r. not (r.id == id)) d.idempotency }

-- The branch on an existing record: it is replaced if it has expired.
unfoldable pub claim_existing :
    IdempotencyRequest → ℕ → IdempotencyRecord → IdempotencyRecord → Action IdempotencyRecord
claim_existing q now fresh existing =
    if leb existing.expires_at now
    then (do
      write (remove existing.id)
      write_if (id_is_free fresh) integrity_error (insert fresh)
      pure fresh)
    else (do
      raise_if (not (str_eq existing.request_fingerprint q.request_fingerprint))
          idempotency_conflict
      raise_if (is_processing existing.status) idempotency_in_progress
      pure existing)

-- The insert in a savepoint, by whether it meets a unique constraint, and what follows then.
unfoldable pub claim_taken :
    IdempotencyRequest → ℕ → IdempotencyRecord → Bool → Action IdempotencyRecord
unfolding claim_existing
claim_taken q now fresh false = do write (insert fresh); pure fresh
claim_taken q now fresh true = do
  wait
  existing ← fetch (λ d. find (same_key q) d.idempotency) conflict
  claim_existing q now fresh existing

-- `claim`
unfoldable pub claim_record : IdempotencyRequest → ℕ → Action IdempotencyRecord
unfolding claim_taken
claim_record q now = do
  id ← uuid4
  taken ← reads (λ d. any (λ r. same_key q r || r.id == id) d.idempotency)
  claim_taken q now (fresh_record id q now) taken

abbrev pub finish : ℕ → Response → ℕ → IdempotencyRecord → IdempotencyRecord
finish code body now r = record r {
  status = IdempotencyRecordStatus.completed;
  response_status_code = some code;
  response_body = some body;
  updated_at = now;
  expires_at = now + retention;
  completed_at = some now;
}

-- `complete`
unfoldable pub complete_record : ℕ → ℕ → Response → ℕ → Action Unit
complete_record id code body now = do
  r ← fetch (λ d. find (λ r. r.id == id) d.idempotency) not_found
  raise_if (not (is_processing r.status)) conflict
  write (λ d. record d {
    idempotency = update_where (λ r. r.id == id) (finish code body now) d.idempotency;
  })

-- What `claim_idempotency` returns: None, a record that this transaction has claimed, or a replay.
pub data Claim : Type 0 where
  unkeyed : Claim
  claimed : IdempotencyRecord → Claim
  replay : ℕ → Response → Claim

unfoldable pub replay_of : Option ℕ → Option Response → Result Claim
replay_of (some code) (some body) = ok (replay code body)
replay_of _ _ = err conflict

unfoldable pub claim_of : IdempotencyRecord → Action Claim
unfolding replay_of
claim_of r =
    if is_processing r.status
    then pure (claimed r)
    else lift (replay_of r.response_status_code r.response_body)

unfoldable pub claim_idempotency : Option IdempotencyRequest → ℕ → Action Claim
unfolding claim_record claim_of
claim_idempotency none now = pure unkeyed
claim_idempotency (some q) now = do r ← claim_record q now; claim_of r

unfoldable pub complete_idempotency : Claim → ℕ → Response → ℕ → Action Unit
unfolding complete_record
complete_idempotency (claimed r) code body now = complete_record r.id code body now
complete_idempotency unkeyed code body now = pure tt
complete_idempotency (replay _ _) code body now = pure tt

-- `get_completed`, for the rate limiter.
abbrev pub is_replay : IdempotencyRequest → ℕ → IdempotencyRecord → Bool
is_replay q now r =
    same_key q r
    && str_eq r.request_fingerprint q.request_fingerprint
    && not (is_processing r.status)
    && ltb now r.expires_at

unfoldable pub get_completed : IdempotencyRequest → ℕ → Action (Option IdempotencyRecord)
get_completed q now = reads (λ d. find (is_replay q now) d.idempotency)

-- The batch of `delete_expired`: the records that expire first.
unfoldable pub expired_records : (now limit : ℕ) → Db → List IdempotencyRecord
expired_records now limit d = take limit (
    sort_by (λ a b. leb a.expires_at b.expires_at)
      (select (λ r. leb r.expires_at now) d.idempotency))

-- `delete_expired`
unfoldable pub delete_expired : (now limit : ℕ) → Action ℕ
unfolding expired_records
delete_expired now limit = do
  batch ← reads (expired_records now limit)
  write (λ d. record d {
    idempotency = select (λ r. not (any (λ x. x.id == r.id) batch)) d.idempotency;
  })
  pure (length batch)
