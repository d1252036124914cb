-- ===== src/Auth/Steps.antt =====
-- What single steps do when transactions run one after the other.
use escrow_fx_marketplace.Common.{
  ℕ, ◌+◌, ◌≡◌, refl, ◌∙◌, Bool, true, false, Option, none, some, String, List, [], ◌∷◌, ◌++◌, map,
  any, find, All, ◌==◌, Bool-cases, inl, inr,
}
use escrow_fx_marketplace.Domain.Errors.{AppError, ok}
use escrow_fx_marketplace.Domain.Enums.{OutboxEventStatus}
use escrow_fx_marketplace.Domain.Entities.{User}
use escrow_fx_marketplace.Store.Db.{Db, Payload, OutboxEvent}
use escrow_fx_marketplace.Store.Action.{
  Env, Session, Action, ◌>>=◌, ◌>>◌, pure, reads, fetch, raise_if, write, write_if, wait, utc_now,
  uuid4,
}
use escrow_fx_marketplace.Store.Ensures.{IsSerial}
use escrow_fx_marketplace.Store.Table.{update_where}
use escrow_fx_marketplace.Store.Users
use escrow_fx_marketplace.Store.Tokens.{
  TokenTable, tokens_of, with_tokens, is_consumable, consumed, consumed_or_none, consume_token,
}
use escrow_fx_marketplace.Store.Outbox.{publish}
use escrow_fx_marketplace.Limits.Steps.{write_if_step}

module _ {A B : Type 0} where
  pub bind_step :
      (m : Action A) (f : A → Action B) (env : Env) (s t : Session) (a : A)
      → m env s ≡ (ok a, t)
      → (m >>= f) env s ≡ f a env t
  unfolding ◌>>=◌
  bind_step m f env s t a e = rw e refl

module _ {B : Type 0} where
  pub then_step :
      (m : Action (Unit {0})) (k : Action B) (env : Env) (s t : Session)
      → m env s ≡ (ok tt, t)
      → (m >> k) env s ≡ k env t
  unfolding ◌>>◌ ◌>>=◌
  then_step m k env s t e = rw e refl

pub fetch_step :
    {A B : Type 0} (f : Db → Option A) (e : AppError) (k : A → Action B) (env : Env) (s : Session)
    {a : A}
    → f s.db ≡ some a
    → (fetch f e >>= k) env s ≡ k a env s
unfolding fetch ◌>>=◌
fetch_step f e k env s found = rw found refl

pub raise_if_step :
    {B : Type 0} (test : Bool) (e : AppError) (k : Action B) (env : Env) (s : Session)
    → test ≡ false
    → (raise_if test e >> k) env s ≡ k env s
unfolding raise_if ◌>>◌ ◌>>=◌
raise_if_step test e k env s passes = rw passes refl

abbrev pub spend : TokenTable → String → ℕ → Db → Db
spend table token_hash now d =
    with_tokens table
      (update_where (is_consumable token_hash now) (consumed now) (tokens_of table d)) d

module _ (env : Env) (serial : IsSerial env) (s : Session) where
  pub consume_step :
      (table : TokenTable) (token_hash : String) (now : ℕ)
      → consume_token table token_hash now env s ≡ (
        ok (consumed_or_none now (find (is_consumable token_hash now) (tokens_of table s.db))),
        record s { db = spend table token_hash now s.db; waits = s.waits + 1 },
      )
  unfolding consume_token ◌>>=◌ ◌>>◌ wait reads write pure
  consume_step table token_hash now = rw (serial s.waits s.db, serial s.waits s.base) refl

  pub lock_step :
      (id : ℕ) (u : User)
      → Users.by_id id s.db ≡ some u
      → Users.get_for_update id env s ≡ (ok u, record s { waits = s.waits + 1 })
  unfolding Users.get_for_update ◌>>=◌ ◌>>◌ wait fetch
  lock_step id u e = rw (serial s.waits s.db, serial s.waits s.base, e) refl

module _ (env : Env) (s : Session) where
  pub save_step :
      (user row : User)
      → Users.by_id user.id s.db ≡ some row
      → Users.email_is_free user s.db ≡ true
      → Users.update user env s ≡ (ok user, record s { db = Users.save user s.db })
  unfolding Users.update pure
  save_step user row e free =
      fetch_step (Users.by_id user.id) _ _ env s e
      ∙ write_if_step (Users.email_is_free user) _ (Users.save user) (pure user) env s free

  abbrev pub event : Payload → ℕ → Option ℕ → OutboxEvent
  event payload aggregate_id recipient = record {
    id = env.uuid s.draws;
    payload = payload;
    aggregate_id = aggregate_id;
    recipient_user_id = recipient;
    status = OutboxEventStatus.pending;
    attempt_count = 0;
    next_attempt_at = some (env.clock s.ticks);
    last_error = none;
    created_at = env.clock s.ticks;
    updated_at = env.clock s.ticks;
  }

  pub publish_step :
      (payload : Payload) (aggregate_id : ℕ) (recipient : Option ℕ)
      → any (λ e. e.id == env.uuid s.draws) s.db.outbox ≡ false
      → publish payload aggregate_id recipient env s ≡ (
        ok tt,
        record s {
          db = record s.db { outbox = s.db.outbox ++ event payload aggregate_id recipient ∷ [] };
          ticks = s.ticks + 1;
          draws = s.draws + 1;
        },
      )
  unfolding publish ◌>>=◌ utc_now uuid4 write_if
  publish_step payload aggregate_id recipient free = rw free refl

module _ {A : Type 0} where
  pub find-agree :
      (test test' : A → Bool) (xs : List A)
      → All (λ x. test x ≡ test' x) xs
      → find test xs ≡ find test' xs
  find-agree test test' [] h = refl
  find-agree test test' (x ∷ xs) h = rw (h.0, find-agree test test' xs h.1) refl

  abbrev pub mapped : (A → A) → Option A → Option A
  mapped g none = none
  mapped g (some a) = some (g a)

  pub find-map :
      (test : A → Bool) (g : A → A) (xs : List A)
      → All (λ x. test (g x) ≡ test x) xs
      → find test (map g xs) ≡ mapped g (find test xs)
  find-map test g [] h = refl
  find-map test g (x ∷ xs) h = elim (Bool-cases (test x)) [
    | inl hit ↦ rw (h.0, hit) refl
    | inr miss ↦ rw (h.0, miss) (find-map test g xs h.1)
  ]

  pub any-none :
      (test : A → Bool) (xs : List A) → All (λ x. test x ≡ false) xs → any test xs ≡ false
  any-none test [] h = refl
  any-none test (x ∷ xs) h = rw (h.0, any-none test xs h.1) refl

  pub find-none :
      (test : A → Bool) (xs : List A) → All (λ x. test x ≡ false) xs → find test xs ≡ none
  find-none test [] h = refl
  find-none test (x ∷ xs) h = rw (h.0, find-none test xs h.1) refl
