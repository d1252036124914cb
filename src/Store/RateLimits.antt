-- ===== src/Store/RateLimits.antt =====
-- SqlAlchemyRateLimitRepository. The unique constraint on policy and key makes a search for a
-- bucket find at most one.
use escrow_fx_marketplace.Common.{
  ℕ, ◌+◌, Bool, not, ◌&&◌, Option, none, some, String, List, [], ◌∷◌, ◌++◌, any, find, select, take,
  length, leb, ltb, ◌==◌, if◌then◌else◌,
}
use escrow_fx_marketplace.Domain.Errors.{integrity_error}
use escrow_fx_marketplace.Store.Db.{Db, RateLimitBucket}
use escrow_fx_marketplace.Store.Action.{
  Action, ◌>>=◌, ◌>>◌, pure, reads, write, write_if, uuid4, wait,
}
use escrow_fx_marketplace.Store.Table.{sort_by, update_where}
use text.Mathlib.Text.{◌==◌ as str_eq}

-- The arguments of `consume`, of which `get` takes some.
pub record Hit : Type 0 where
  pub policy_name : String
  pub key_hash : String
  pub window_started_at : ℕ
  pub expires_at : ℕ
  pub limit : ℕ
  pub now : ℕ

abbrev pub same_bucket : Hit → RateLimitBucket → Bool
same_bucket h b = str_eq b.policy_name h.policy_name && str_eq b.key_hash h.key_hash

abbrev pub find_bucket : Hit → Db → Option RateLimitBucket
find_bucket h d = find (same_bucket h) d.buckets

abbrev pub fresh_bucket : ℕ → Hit → RateLimitBucket
fresh_bucket id h = record {
  id = id;
  policy_name = h.policy_name;
  key_hash = h.key_hash;
  window_started_at = h.window_started_at;
  request_count = 1;
  expires_at = h.expires_at;
  created_at = h.now;
  updated_at = h.now;
}

abbrev pub insert_bucket : RateLimitBucket → Db → Db
insert_bucket b d = record d { buckets = d.buckets ++ b ∷ [] }

abbrev pub bucket_id_is_free : RateLimitBucket → Db → Bool
bucket_id_is_free b d = not (any (λ x. x.id == b.id) d.buckets)

-- `on_conflict_do_update(set_=...)`
unfoldable pub conflict_update : Hit → RateLimitBucket → RateLimitBucket
conflict_update h b = record b {
  window_started_at = h.window_started_at;
  request_count =
      if b.window_started_at == h.window_started_at
      then (if ltb b.request_count (h.limit + 1) then b.request_count + 1 else h.limit + 1)
      else 1;
  expires_at = h.expires_at;
  updated_at = h.now;
}

abbrev pub update_bucket : (RateLimitBucket → Bool) → (RateLimitBucket → RateLimitBucket) → Db → Db
update_bucket test f d = record d { buckets = update_where test f d.buckets }

-- The upsert, by the row that the insert conflicts with.
unfoldable pub upsert : ℕ → Hit → Option RateLimitBucket → Action RateLimitBucket
unfolding conflict_update
upsert id h none = do
  write_if (bucket_id_is_free (fresh_bucket id h)) integrity_error
      (insert_bucket (fresh_bucket id h))
  pure (fresh_bucket id h)
upsert id h (some b) = do
  write (update_bucket (same_bucket h) (conflict_update h))
  pure (conflict_update h b)

-- `consume` on PostgreSQL and SQLite: one statement.
unfoldable pub consume : Hit → Action RateLimitBucket
unfolding upsert
consume h = do id ← uuid4; wait; found ← reads (find_bucket h); upsert id h found

abbrev pub min : ℕ → ℕ → ℕ
min a b = if leb a b then a else b

-- The two changes of a loaded row.
unfoldable pub loaded_update : Hit → RateLimitBucket → RateLimitBucket
loaded_update h b =
    if not (b.window_started_at == h.window_started_at)
    then record b {
      window_started_at = h.window_started_at;
      request_count = 1;
      expires_at = h.expires_at;
      updated_at = h.now;
    }
    else record b { request_count = min (b.request_count + 1) (h.limit + 1); updated_at = h.now }

-- The primary key and the unique constraint on policy and key.
abbrev pub bucket_is_new : RateLimitBucket → Hit → Db → Bool
bucket_is_new b h d = bucket_id_is_free b d && not (any (same_bucket h) d.buckets)

-- The flush: an insert waits for another transaction that inserts the same key, and then raises.
unfoldable pub save_loaded : Hit → Option RateLimitBucket → Action RateLimitBucket
unfolding loaded_update
save_loaded h none = do
  id ← uuid4
  wait
  write_if (bucket_is_new (fresh_bucket id h) h) integrity_error (insert_bucket (fresh_bucket id h))
  pure (fresh_bucket id h)
save_loaded h (some b) = do
  write (update_bucket (λ x. x.id == b.id) (loaded_update h))
  pure (loaded_update h b)

-- `with_for_update` waits only where it finds a row, and then reads the row again.
unfoldable pub lock_bucket : Hit → Option RateLimitBucket → Action (Option RateLimitBucket)
lock_bucket h none = pure none
lock_bucket h (some _) = do wait; reads (find_bucket h)

-- `_consume_fallback`: the row is locked, changed, and flushed by its primary key.
unfoldable pub consume_fallback : Hit → Action RateLimitBucket
unfolding lock_bucket save_loaded
consume_fallback h = do
  seen ← reads (find_bucket h)
  found ← lock_bucket h seen
  save_loaded h found

-- `get`
unfoldable pub get_bucket : Hit → Action (Option RateLimitBucket)
get_bucket h = reads (λ d.
    find
      (λ b. same_bucket h b && b.window_started_at == h.window_started_at && ltb h.now b.expires_at)
      d.buckets)

-- The batch of `delete_expired`: the expired buckets that expire first.
unfoldable pub expired_batch : (now limit : ℕ) → Db → List RateLimitBucket
expired_batch now limit d =
    take limit (
      sort_by (λ a b. leb a.expires_at b.expires_at) (select (λ b. leb b.expires_at now) d.buckets))

-- `delete_expired`
unfoldable pub delete_expired : (now limit : ℕ) → Action ℕ
unfolding expired_batch
delete_expired now limit = do
  wait
  batch ← reads (expired_batch now limit)
  write (λ d. record d { buckets = select (λ b. not (any (λ x. x.id == b.id) batch)) d.buckets })
  pure (length batch)
