-- ===== src/Service/RoundTrip.antt =====
-- A response that is stored under a key is the one that the key replays.
use escrow_fx_marketplace.Common.{
  ℕ, ◌≡◌, refl, sym, ◌∙◌, ap, subst, ◌+◌, Bool, true, false, Option, none, some, List, [], ◌∷◌,
  find, leb, ◌==◌, arith, Bool-cases, inl, inr,
}
use escrow_fx_marketplace.Domain.Errors.{AppError, ok}
use escrow_fx_marketplace.Store.Db.{Db, IdempotencyRecord, Response}
use escrow_fx_marketplace.Store.Action.{Env, Session, Action, ◌>>=◌, ◌>>◌, fetch, raise_if, write}
use escrow_fx_marketplace.Store.Ensures.{IsSerial}
use escrow_fx_marketplace.Store.Table.{update_where}
use escrow_fx_marketplace.Store.Idempotency
use escrow_fx_marketplace.Store.Idempotency.{
  IdempotencyRequest, Claim, same_key, finish, retention, complete_idempotency, complete_record,
}
use escrow_fx_marketplace.Service.Outcome.{Outcome, replayed, with_claim}
use escrow_fx_marketplace.Service.Replay.{with_claim-replay}
use text.Mathlib.Text.{◌==◌ as str_eq}

finished_row :
    (q : IdempotencyRequest) (r : IdempotencyRecord) (code : ℕ) (body : Response) (now : ℕ)
    (rows : List IdempotencyRecord)
    → find (same_key q) rows ≡ some r
    → find (same_key q) (update_where (λ x. x.id == r.id) (finish code body now) rows)
      ≡ some (finish code body now r)
finished_row q r code body now [] e = absurd (cc)
finished_row q r code body now (x ∷ rows) e = elim (Bool-cases (same_key q x)) [
  | inl hit ↦
      let found : some x ≡ some r = (rw hit at e) in
      let same : (x.id == r.id) ≡ true = (ground (arith, ap the_id found)) in
      rw (same, hit) (ap finished found)
  | inr miss ↦ elim (Bool-cases (x.id == r.id)) [
    | inl same ↦ rw (same, miss) (finished_row q r code body now rows (rw miss at e))
    | inr other ↦ rw (other, miss) (finished_row q r code body now rows (rw miss at e))
  ]
]
  where
    the_id : Option IdempotencyRecord → ℕ
    the_id none = 0
    the_id (some x) = x.id

    finished : Option IdempotencyRecord → Option IdempotencyRecord
    finished none = none
    finished (some x) = some (finish code body now x)

fetch_step :
    {A B : Type 0} (f : Db → Option A) (e : AppError) (k : A → Action B) (env : Env) (s : Session)
    {a : A}
    → f s.db ≡ some a
    → (fetch f e >>= k) env s ≡ k a env s
unfolding fetch ◌>>=◌
fetch_step f e k env s found = rw found refl

raise_if_step :
    {B : Type 0} (test : Bool) (e : AppError) (k : Action B) (env : Env) (s : Session)
    → test ≡ false
    → (raise_if test e >> k) env s ≡ k env s
unfolding raise_if ◌>>◌ ◌>>=◌
raise_if_step test e k env s passes = rw passes refl

abbrev pub after_completion : Env → IdempotencyRecord → ℕ → Response → ℕ → Session → Session
after_completion env r code body now s =
    (complete_idempotency (Claim.claimed r) code body now env s).1

module _ (env : Env) (serial : IsSerial env) (q : IdempotencyRequest) (r : IdempotencyRecord)
    (code : ℕ) (body : Response) (now : ℕ) (s : Session)
    (by_key : find (same_key q) s.db.idempotency ≡ some r)
    (by_id : find (λ x. x.id == r.id) s.db.idempotency ≡ some r)
    (processing : Idempotency.is_processing r.status ≡ true) where
  complete_step : complete_idempotency (Claim.claimed r) code body now env s ≡ (
    ok tt,
    record s {
      db = record s.db {
        idempotency = update_where (λ x. x.id == r.id) (finish code body now) s.db.idempotency;
      };
    },
  )
  unfolding complete_idempotency complete_record write
  complete_step =
      fetch_step _ _ _ env s by_id ∙ raise_if_step _ _ _ env s (ground (arith, processing))

  finish-found :
      find (same_key q) (after_completion env r code body now s).db.idempotency
      ≡ some (finish code body now r)
  finish-found =
      subst (λ p. find (same_key q) p.1.db.idempotency ≡ some (finish code body now r))
        (sym complete_step) (finished_row q r code body now s.db.idempotency by_key)

  -- When transactions run one after the other, once a mutation has completed its claim, the same
  -- key with the same fingerprint replays its response until it expires: whatever code would run
  -- behind the claim does not run, and nothing is changed.
  pub completion-replay :
      (later : ℕ) (rest : Claim → Action Outcome)
      → str_eq r.request_fingerprint q.request_fingerprint ≡ true
      → leb (now + retention) later ≡ false
      → ((with_claim (some q) later rest env (after_completion env r code body now s)).0
          ≡ ok (replayed code body))
        × ((with_claim (some q) later rest env (after_completion env r code body now s)).1.db
            ≡ (after_completion env r code body now s).db)
        × ((with_claim (some q) later rest env (after_completion env r code body now s)).1.base
            ≡ (after_completion env r code body now s).base)
  completion-replay later rest same live =
      with_claim-replay env serial q later (finish code body now r) rest
        (after_completion env r code body now s) finish-found live code body same refl refl refl
