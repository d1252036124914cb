-- ===== src/Market/Frame.antt =====
-- The steps of a transaction that leave requests, offers and trades alone.
use escrow_fx_marketplace.Common.{
  ℕ, ◌≡◌, refl, ◌∙◌, Bool, true, false, Option, none, some, List, Bool-cases, inl, inr, leb,
}
use escrow_fx_marketplace.Store.Db.{Db, Payload, Response, IdempotencyRecord}
use escrow_fx_marketplace.Store.Action.{Env, Session}
use escrow_fx_marketplace.Store.Ensures.{
  Ensures, IsSerial, Ensures-bind, fetch-Ensures, fetch_last-Ensures, raise_if-Ensures,
  wait-Ensures, utc_now-Ensures, uuid4-Ensures, reads-Ensures, pure-Ensures, write-Ensures,
  write_if-Ensures, write_last-Ensures, lift_last-Ensures, write_if_last-Ensures, collect-Ensures,
  Ensures-weaken,
}
use escrow_fx_marketplace.Store.Users
use escrow_fx_marketplace.Store.Users.{lock_users_in_order, lock_order}
use escrow_fx_marketplace.Store.Outbox.{publish}
use escrow_fx_marketplace.Store.Idempotency
use escrow_fx_marketplace.Store.Idempotency.{
  IdempotencyRequest, Claim, unkeyed, claimed, replay, claim_idempotency, complete_idempotency,
  claim_record, claim_taken, claim_existing, claim_of, replay_of,
}
use escrow_fx_marketplace.Market.Invariant.{IsConsistentBut}

abbrev pub SameMarket : (before after : Db) → Type 0
SameMarket before after =
    (after.requests ≡ before.requests)
    × (after.offers ≡ before.offers)
    × (after.trades ≡ before.trades)
    × (after.users ≡ before.users)
    × (after.currencies ≡ before.currencies)
    × (after.corridors ≡ before.corridors)

pub SameMarket-consistent :
    {exempt exempt_trades : ℕ → Bool} (before after : Db)
    → SameMarket before after
    → IsConsistentBut exempt exempt_trades before
    → IsConsistentBut exempt exempt_trades after
SameMarket-consistent before after same h = record {
  requests_keyed = rw same.0 h.requests_keyed;
  offers_keyed = rw same.1 h.offers_keyed;
  pending_behind = rw (same.1, same.0) h.pending_behind;
  trades_backed = rw (same.2, same.0, same.1) h.trades_backed;
}

pub SameMarket-trans : (a b c : Db) → SameMarket a b → SameMarket b c → SameMarket a c
SameMarket-trans a b c h k = (k.0 ∙ h.0, k.1 ∙ h.1, k.2 ∙ h.2, k.3 ∙ h.3, k.4 ∙ h.4, k.5 ∙ h.5)

module _ {I : Db → Type 0} (env : Env) where
  pub publish-Same :
      (payload : Payload) (aggregate_id : ℕ) (recipient : Option ℕ) (s : Session)
      → I s.base
      → Ensures I (λ _ d. SameMarket s.db d) (publish payload aggregate_id recipient env s)
  unfolding publish
  publish-Same payload aggregate_id recipient s i = utc_now-Ensures _ s (
      uuid4-Ensures _ _
        (write_if_last-Ensures env _ _ _ _ i λ _. (refl, refl, refl, refl, refl, refl)))

  pub complete-Same :
      (claim : Claim) (code : ℕ) (body : Response) (now : ℕ) (s : Session)
      → I s.base
      → Ensures I (λ _ d. SameMarket s.db d) (complete_idempotency claim code body now env s)
  unfolding complete_idempotency
  complete-Same (claimed r) code body now s i = fetch-Ensures _ _ _ s i λ r _.
      raise_if-Ensures _ _ _ s i
        λ _. write_last-Ensures env _ s i (refl, refl, refl, refl, refl, refl)
  complete-Same unkeyed code body now s i =
      pure-Ensures env tt s i (refl, refl, refl, refl, refl, refl)
  complete-Same (replay _ _) code body now s i =
      pure-Ensures env tt s i (refl, refl, refl, refl, refl, refl)

module _ {I : Db → Type 0} (env : Env) (serial : IsSerial env) where
  claim_existing-Same :
      (q : IdempotencyRequest) (now : ℕ) (fresh existing : IdempotencyRecord) (s : Session)
      → I s.base
      → Ensures I (λ _ d. SameMarket s.db d) (claim_existing q now fresh existing env s)
  unfolding claim_existing
  claim_existing-Same q now fresh existing s i = elim (Bool-cases (leb existing.expires_at now)) [
    | inl due ↦ rw due (
        write-Ensures _ _ s (
          write_if-Ensures _ _ _ _ _ i
            λ _. pure-Ensures env fresh _ i (refl, refl, refl, refl, refl, refl)))
    | inr live ↦ rw live (
        raise_if-Ensures _ _ _ s i λ _.
          raise_if-Ensures _ _ _ s i
            λ _. pure-Ensures env existing s i (refl, refl, refl, refl, refl, refl))
  ]

  claim_taken-Same :
      (q : IdempotencyRequest) (now : ℕ) (fresh : IdempotencyRecord) (taken : Bool) (s : Session)
      → I s.base
      → Ensures I (λ _ d. SameMarket s.db d) (claim_taken q now fresh taken env s)
  unfolding claim_taken
  claim_taken-Same q now fresh false s i =
      write-Ensures _ _ s (pure-Ensures env fresh _ i (refl, refl, refl, refl, refl, refl))
  claim_taken-Same q now fresh true s i =
      wait-Ensures serial _ s
        (fetch-Ensures _ _ _ _ i λ existing _. claim_existing-Same q now fresh existing _ i)

  claim_of-Same :
      (r : IdempotencyRecord) (s : Session)
      → I s.base
      → Ensures I (λ _ d. SameMarket s.db d) (claim_of r env s)
  unfolding claim_of
  claim_of-Same r s i = elim (Bool-cases (Idempotency.is_processing r.status)) [
    | inl processing ↦
        rw processing (pure-Ensures env (claimed r) s i (refl, refl, refl, refl, refl, refl))
    | inr done ↦ rw done (
        lift_last-Ensures env (replay_of r.response_status_code r.response_body) s i
          λ c _. (refl, refl, refl, refl, refl, refl))
  ]

  pub claim_idempotency-Same :
      (q : Option IdempotencyRequest) (now : ℕ) (s : Session)
      → I s.base
      → Ensures I (λ _ d. SameMarket s.db d) (claim_idempotency q now env s)
  unfolding claim_idempotency claim_record
  claim_idempotency-Same none now s i =
      pure-Ensures env unkeyed s i (refl, refl, refl, refl, refl, refl)
  claim_idempotency-Same (some q) now s i =
      Ensures-bind (claim_record q now) claim_of s
        (uuid4-Ensures _ s (reads-Ensures _ _ _ (claim_taken-Same q now _ _ _ i)))
        λ r s' i' same.
          Ensures-weaken (claim_of-Same r s' i')
            λ _ d same'. SameMarket-trans s.db s'.db d same same'

  -- The users' locks are taken one after the other, and nothing else happens.
  pub lock_users-Same :
      (ids : List ℕ) (s : Session)
      → I s.base
      → Ensures I (λ _ d. d ≡ s.db) (lock_users_in_order ids env s)
  unfolding lock_users_in_order
  lock_users-Same ids s i =
      Ensures-weaken
        (collect-Ensures (λ d. d ≡ s.db) (λ _. Unit {0}) Users.get_for_update
          (λ id s' i' same. lock_user id s' i' same) (lock_order ids) s i refl)
        λ _ d p. p.1
    where
      lock_user :
          (id : ℕ) (s' : Session)
          → I s'.base
          → s'.db ≡ s.db
          → Ensures I (λ _ d. Unit {0} × (d ≡ s.db)) (Users.get_for_update id env s')
      lock_user id s' i' same =
          unfold Users.get_for_update in
          wait-Ensures serial _ s' (fetch_last-Ensures env _ _ _ i' λ _ _. (tt, same))
