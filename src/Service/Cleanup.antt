-- ===== src/Service/Cleanup.antt =====
-- The deletion of expired idempotency records, and replays.
use mathlib.Core.Option.{some-injective}
use escrow_fx_marketplace.Common.{
  ℕ, ◌≤◌, ◌≡◌, refl, sym, ap, ◌∙◌, Bool, true, false, not, ◌&&◌, List, [], ◌∷◌, All, All-weaken,
  any, find, select, leb, ltb, ◌==◌, ==→eq, Bool-cases, inl, inr, arith,
}
use escrow_fx_marketplace.Domain.Errors.{ok}
use escrow_fx_marketplace.Store.Db.{Db, IdempotencyRecord}
use escrow_fx_marketplace.Store.Table.{All-sort_by}
use escrow_fx_marketplace.Store.Action.{Env, Session, ◌>>=◌, ◌>>◌, reads, write, pure}
use escrow_fx_marketplace.Store.Idempotency.{
  IdempotencyRequest, is_replay, get_completed, expired_records,
}
use escrow_fx_marketplace.Store.Idempotency
use escrow_fx_marketplace.Pages.Cursor.{Cursor}
use escrow_fx_marketplace.Pages.Order.{IsDistinct}
use escrow_fx_marketplace.Pages.Visible.{IsFoundIn, rows-found, All-take, select-both, both}

abbrev pub record_position : IdempotencyRecord → Cursor
record_position r = record { created_at = r.created_at; item_id = r.id }

module _ {A : Type 0} where
  find-select :
      (test keep : A → Bool) (xs : List A)
      → All (λ x. test x ≡ true → keep x ≡ true) xs
      → find test (select keep xs) ≡ find test xs
  find-select test keep [] h = refl
  find-select test keep (x ∷ xs) h = elim (Bool-cases (test x)) [
    | inl hit ↦ rw (h.0 hit, hit) refl
    | inr miss ↦ elim (Bool-cases (keep x)) [
      | inl kept ↦ rw (kept, miss) (find-select test keep xs h.1)
      | inr dropped ↦ rw (dropped, miss) (find-select test keep xs h.1)
    ]
  ]

  any-none : (test : A → Bool) (xs : List A) → All (λ x. test x ≡ false) xs → any test xs ≡ false
  any-none test [] h = refl
  any-none test (x ∷ xs) h = rw h.0 (any-none test xs h.1)

replay_live :
    (q : IdempotencyRequest) (now : ℕ) (r : IdempotencyRecord)
    → is_replay q now r ≡ true
    → ltb now r.expires_at ≡ true
replay_live q now r h = (both _ _ h).1

module _ (rows : List IdempotencyRecord) where
  same_row :
      (x r : IdempotencyRecord)
      → IsFoundIn record_position rows x
      → IsFoundIn record_position rows r
      → x.id ≡ r.id
      → x ≡ r
  same_row x r found_x found_r e = some-injective x r (
      sym (found_x (λ _. true) refl)
      ∙ ap (λ n. find (λ y. y.id == n && true) rows) e
      ∙ found_r (λ _. true) refl)

  not_expired :
      (now now' : ℕ) (x r : IdempotencyRecord)
      → now' ≤ now
      → IsFoundIn record_position rows x
      → IsFoundIn record_position rows r
      → leb x.expires_at now' ≡ true
      → ltb now r.expires_at ≡ true
      → (x.id == r.id) ≡ false
  not_expired now now' x r later found_x found_r expired live = elim (Bool-cases (x.id == r.id)) [
    | inl same ↦
        let e =
          ap (λ (r : IdempotencyRecord). r.expires_at)
            (same_row x r found_x found_r (==→eq x.id r.id same)) in
        absurd (ground (arith, later, expired, live, e))
    | inr other ↦ other
  ]

  -- The batch has rows of the table that have expired.
  batch-expired :
      (now' limit : ℕ) (d : Db)
      → d.idempotency ≡ rows
      → IsDistinct record_position rows
      → All
          (λ x. IsFoundIn record_position rows x × (leb x.expires_at now' ≡ true))
          (expired_records now' limit d)
  unfolding expired_records
  batch-expired now' limit d e distinct =
      let Q : IdempotencyRecord → Type 0 =
        λ x. IsFoundIn record_position rows x × (leb x.expires_at now' ≡ true) in
      rw e (
        All-take Q limit _ (
          All-sort_by Q _ (select (λ r. leb r.expires_at now') rows) (
            select-both (IsFoundIn record_position rows) (λ r. leb r.expires_at now') rows
              (rows-found record_position rows distinct))))

  -- A record that is replayed is in no batch.
  kept :
      (q : IdempotencyRequest) (now now' : ℕ) (batch : List IdempotencyRecord)
      → now' ≤ now
      → All (λ x. IsFoundIn record_position rows x × (leb x.expires_at now' ≡ true)) batch
      → (r : IdempotencyRecord) → IsFoundIn record_position rows r
      → is_replay q now r ≡ true
      → not (any (λ x. x.id == r.id) batch) ≡ true
  kept q now now' batch later expired r found replayed =
      rw
        (any-none (λ (x : IdempotencyRecord). x.id == r.id) batch
          (All-weaken _ _
            (λ (x : IdempotencyRecord) h.
              not_expired now now' x r later h.0 found h.1 (replay_live q now r replayed))
            batch expired))
        refl

-- Where identifiers are unique, the deletion of expired records changes no replay: a request that
-- comes at the time of the deletion or later is given the same completed record as without it.
pub delete_expired-get_completed :
    (env : Env) (s : Session) (q : IdempotencyRequest) (now now' limit : ℕ)
    → IsDistinct record_position s.db.idempotency
    → now' ≤ now
    → (get_completed q now env (Idempotency.delete_expired now' limit env s).1).0
      ≡ (get_completed q now env s).0
unfolding get_completed Idempotency.delete_expired reads write pure ◌>>=◌ ◌>>◌
delete_expired-get_completed env s q now now' limit distinct later =
    let rows = s.db.idempotency in
    let batch = expired_records now' limit s.db in
    ap ok (
      find-select (is_replay q now) (λ r. not (any (λ x. x.id == r.id) batch)) rows
        (All-weaken (IsFoundIn record_position rows) _
          (λ r found replayed.
            kept rows q now now' batch later (batch-expired rows now' limit s.db refl distinct) r
              found replayed)
          rows (rows-found record_position rows distinct)))
