-- ===== src/Service/Replay.antt =====
-- What the idempotency bracket does with a key that has been used.
use escrow_fx_marketplace.Common.{
  ◌||◌, ◌==◌, arith, ℕ, ◌≡◌, refl, Bool, true, false, Option, some, List, [], ◌∷◌, any, find, ◌+◌,
  if◌then◌else◌, leb, Bool-cases, inl, inr,
}
use escrow_fx_marketplace.Domain.Errors.{ok, err, idempotency_conflict, idempotency_in_progress}
use escrow_fx_marketplace.Store.Db.{IdempotencyRecord, Response}
use escrow_fx_marketplace.Store.Action.{
  Env, Session, Action, ◌>>=◌, ◌>>◌, pure, uuid4, reads, wait, fetch, raise_if, lift,
}
use escrow_fx_marketplace.Store.Ensures.{IsSerial}
use escrow_fx_marketplace.Store.Idempotency
use escrow_fx_marketplace.Store.Idempotency.{
  IdempotencyRequest, Claim, same_key, claim_idempotency, claim_record, claim_taken, claim_existing,
  claim_of, replay_of,
}
use escrow_fx_marketplace.Service.Outcome.{Outcome, replayed, with_claim, unless_replay}
use text.Mathlib.Text.{◌==◌ as str_eq}

found-taken :
    (q : IdempotencyRequest) (id : ℕ) (rows : List IdempotencyRecord) (r : IdempotencyRecord)
    → find (same_key q) rows ≡ some r
    → any (λ x. same_key q x || x.id == id) rows ≡ true
found-taken q id [] r e = cc
found-taken q id (x ∷ rows) r e = elim (Bool-cases (same_key q x)) [
  | inl hit ↦ rw hit refl
  | inr miss ↦ rw miss (ground (arith, found-taken q id rows r (rw miss at e)))
]

claim_of-replay :
    (r : IdempotencyRecord) (code : ℕ) (body : Response) (env : Env) (s : Session)
    → Idempotency.is_processing r.status ≡ false
    → r.response_status_code ≡ some code
    → r.response_body ≡ some body
    → claim_of r env s ≡ (ok (Claim.replay code body), s)
unfolding claim_of replay_of lift
claim_of-replay r code body env s =
    stored (Idempotency.is_processing r.status) r.response_status_code r.response_body
  where
    stored :
        (b : Bool) (c : Option ℕ) (o : Option Response)
        → b ≡ false
        → c ≡ some code
        → o ≡ some body
        → (if b then pure (Claim.claimed r) else lift (replay_of c o)) env s
          ≡ (ok (Claim.replay code body), s)
    stored b c o done has_code has_body = rw (done, has_code, has_body) refl

module _ (env : Env) (serial : IsSerial env) (q : IdempotencyRequest) (now : ℕ)
    (r : IdempotencyRecord) (rest : Claim → Action Outcome) (s : Session)
    (found : find (same_key q) s.db.idempotency ≡ some r)
    (live : leb r.expires_at now ≡ false) where
  -- When transactions run one after the other, a key under which a completed record with the same
  -- fingerprint is found, not expired and with its response, is answered by that response: the
  -- mutation does not run, and neither what is committed nor what the transaction sees changes.
  pub with_claim-replay :
      (code : ℕ) (body : Response)
      → str_eq r.request_fingerprint q.request_fingerprint ≡ true
      → Idempotency.is_processing r.status ≡ false
      → r.response_status_code ≡ some code
      → r.response_body ≡ some body
      → ((with_claim (some q) now rest env s).0 ≡ ok (replayed code body))
        × ((with_claim (some q) now rest env s).1.db ≡ s.db)
        × ((with_claim (some q) now rest env s).1.base ≡ s.base)
  unfolding with_claim claim_idempotency claim_record claim_taken claim_existing unless_replay ◌>>=◌
      ◌>>◌ pure uuid4 reads wait fetch raise_if lift
  with_claim-replay code body same done has_code has_body =
      rw
        (
          found-taken q (env.uuid s.draws) s.db.idempotency r found,
          serial s.waits s.db,
          serial s.waits s.base,
          found,
          live,
          same,
          done,
          claim_of-replay r code body env (record s { draws = s.draws + 1; waits = s.waits + 1 })
              done has_code has_body,
        )
        (refl, refl, refl)

  -- When transactions run one after the other, a key under which a record is found that has not
  -- expired and has another fingerprint is refused as a conflict, and nothing changes.
  pub with_claim-conflict :
      str_eq r.request_fingerprint q.request_fingerprint ≡ false
      → ((with_claim (some q) now rest env s).0 ≡ err idempotency_conflict)
        × ((with_claim (some q) now rest env s).1.db ≡ s.db)
        × ((with_claim (some q) now rest env s).1.base ≡ s.base)
  unfolding with_claim claim_idempotency claim_record claim_taken claim_existing ◌>>=◌ ◌>>◌ pure
      uuid4 reads wait fetch raise_if
  with_claim-conflict other =
      rw
        (
          found-taken q (env.uuid s.draws) s.db.idempotency r found,
          serial s.waits s.db,
          serial s.waits s.base,
          found,
          live,
          other,
        )
        (refl, refl, refl)

  -- When transactions run one after the other, a key under which a record is found that has not
  -- expired, has the same fingerprint and is still processing is refused, and nothing changes.
  pub with_claim-in_progress :
      str_eq r.request_fingerprint q.request_fingerprint ≡ true
      → Idempotency.is_processing r.status ≡ true
      → ((with_claim (some q) now rest env s).0 ≡ err idempotency_in_progress)
        × ((with_claim (some q) now rest env s).1.db ≡ s.db)
        × ((with_claim (some q) now rest env s).1.base ≡ s.base)
  unfolding with_claim claim_idempotency claim_record claim_taken claim_existing ◌>>=◌ ◌>>◌ pure
      uuid4 reads wait fetch raise_if
  with_claim-in_progress same processing =
      rw
        (
          found-taken q (env.uuid s.draws) s.db.idempotency r found,
          serial s.waits s.db,
          serial s.waits s.base,
          found,
          live,
          same,
          processing,
        )
        (refl, refl, refl)
