-- ===== src/Service/Leases.antt =====
-- The leases of the dispatcher, its batches and its delays.
use native.Mathlib.Nat.{pow-le-pow_right, mul-le-mul_left}
use escrow_fx_marketplace.Common.{
  ℕ, zero, suc, ◌≡◌, refl, ◌-◌, ◌*◌, ◌^◌, ◌≤◌, Bool, true, false, List, [], ◌∷◌, any, select, take,
  length, leb, arith, All, if◌then◌else◌, Bool-cases, inl, inr,
}
use escrow_fx_marketplace.Domain.Errors.{ok}
use escrow_fx_marketplace.Store.Db.{Db, OutboxEvent}
use escrow_fx_marketplace.Store.Action.{Env, Session, ◌>>=◌, ◌>>◌, pure, reads, write}
use escrow_fx_marketplace.Store.Table.{update_where, All-sort_by}
use escrow_fx_marketplace.Service.Dispatch

module _ (event_id expected now : ℕ) (v : Dispatch.Verdict)
    (ended : Dispatch.is_processing v.status ≡ false) where
  released-any :
      (rows : List OutboxEvent)
      → any
          (Dispatch.is_leased event_id expected)
          (update_where (Dispatch.is_leased event_id expected) (Dispatch.finalize now v) rows)
        ≡ false
  released-any [] = refl
  released-any (e ∷ rows) = elim (Bool-cases (Dispatch.is_leased event_id expected e)) [
    | inl leased ↦ rw leased (ground (arith, ended, released-any rows))
    | inr other ↦ rw other (ground (arith, other, released-any rows))
  ]

unleased-map :
    (event_id expected now : ℕ) (v : Dispatch.Verdict) (rows : List OutboxEvent)
    → any (Dispatch.is_leased event_id expected) rows ≡ false
    → update_where (Dispatch.is_leased event_id expected) (Dispatch.finalize now v) rows ≡ rows
unleased-map event_id expected now v [] e = refl
unleased-map event_id expected now v (r ∷ rows) e =
    elim (Bool-cases (Dispatch.is_leased event_id expected r)) [
      | inl leased ↦ absurd (ground (arith, leased, e))
      | inr other ↦ rw (other, unleased-map event_id expected now v rows (rw other at e)) refl
    ]

-- A dispatcher whose lease is over changes nothing, and is told so.
pub mark-stale :
    (event_id expected now : ℕ) (v : Dispatch.Verdict) (env : Env) (s : Session)
    → any (Dispatch.is_leased event_id expected) s.db.outbox ≡ false
    → ((Dispatch.mark event_id expected now v env s).0 ≡ ok false)
      × ((Dispatch.mark event_id expected now v env s).1.db ≡ s.db)
unfolding Dispatch.mark ◌>>=◌ ◌>>◌ pure reads write
mark-stale event_id expected now v env s e =
    rw (e, unleased-map event_id expected now v s.db.outbox e) (refl, refl)

abbrev pub after_mark : (event_id expected now : ℕ) → Dispatch.Verdict → Env → Session → Session
after_mark event_id expected now v env s = (Dispatch.mark event_id expected now v env s).1

-- An attempt is finalized at most once: a second verdict on the same lease changes nothing, and is
-- told so, if the first one ended the lease.
pub mark-mark :
    (event_id expected now now' : ℕ) (v v' : Dispatch.Verdict) (env : Env) (s : Session)
    → Dispatch.is_processing v.status ≡ false
    → ((Dispatch.mark event_id expected now' v' env (after_mark event_id expected now v env s)).0
        ≡ ok false)
      × ((Dispatch.mark event_id expected now' v' env
            (after_mark event_id expected now v env s)).1.db
          ≡ (after_mark event_id expected now v env s).db)
mark-mark event_id expected now now' v v' env s ended =
    mark-stale event_id expected now' v' env (Dispatch.mark event_id expected now v env s).1 freed
  where
    freed :
        any
          (Dispatch.is_leased event_id expected)
          (Dispatch.mark event_id expected now v env s).1.db.outbox
        ≡ false
    freed =
        unfold Dispatch.mark ◌>>=◌ ◌>>◌ pure reads write in
        released-any event_id expected now v ended s.db.outbox

length-take : (n : ℕ) (rows : List OutboxEvent) → length (take n rows) ≤ n
length-take zero rows = omega arith
length-take (suc n) [] = omega arith
length-take (suc n) (r ∷ rows) = ground (arith, length-take n rows)

take-All :
    (P : OutboxEvent → Type 0) (n : ℕ) (rows : List OutboxEvent) → All P rows → All P (take n rows)
take-All P zero rows h = tt
take-All P (suc n) [] h = tt
take-All P (suc n) (r ∷ rows) h = (h.0, take-All P n rows h.1)

select-passes :
    (test : OutboxEvent → Bool) (rows : List OutboxEvent)
    → All (λ e. test e ≡ true) (select test rows)
select-passes test [] = tt
select-passes test (r ∷ rows) = elim (Bool-cases (test r)) [
  | inl t ↦ rw t (t, select-passes test rows)
  | inr f ↦ rw f (select-passes test rows)
]

-- A batch is no larger than its limit, and every event of it is due: it waits for an attempt whose
-- time has come, or the lease of the dispatcher that claimed it has run out.
pub due_events_lem :
    (now limit : ℕ) (d : Db)
    → (length (Dispatch.due_events now limit d) ≤ limit)
      × All (λ e. Dispatch.is_dispatchable now e ≡ true) (Dispatch.due_events now limit d)
unfolding Dispatch.due_events
due_events_lem now limit d = (
  length-take limit _,
  take-All (λ e. Dispatch.is_dispatchable now e ≡ true) limit _
      (All-sort_by (λ e. Dispatch.is_dispatchable now e ≡ true) _ _
        (select-passes (Dispatch.is_dispatchable now) d.outbox)),
)

-- The delay before the next attempt is bounded, and grows with the number of attempts.
pub retry_delay-bounds :
    (settings : Dispatch.DispatchSettings) (n m : ℕ)
    → n ≤ m
    → (Dispatch.retry_delay settings n ≤ Dispatch.retry_delay settings m)
      × (Dispatch.retry_delay settings m ≤ settings.retry_max)
unfolding Dispatch.retry_delay
retry_delay-bounds settings n m h = (
  capped (settings.retry_base * 2 ^ (n - 1)) (settings.retry_base * 2 ^ (m - 1)) grows,
  ground arith,
)
  where
    grows : settings.retry_base * 2 ^ (n - 1) ≤ settings.retry_base * 2 ^ (m - 1)
    grows =
        mul-le-mul_left settings.retry_base (pow-le-pow_right {n = 2} (omega arith) (omega arith))

    capped :
        (x y : ℕ)
        → x ≤ y
        → (if leb x settings.retry_max then x else settings.retry_max)
          ≤ (if leb y settings.retry_max then y else settings.retry_max)
    capped x y e = ground arith
