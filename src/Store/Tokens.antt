-- ===== src/Store/Tokens.antt =====
-- SqlAlchemyEmailVerificationTokenRepository and SqlAlchemyPasswordResetTokenRepository, which
-- differ in their table alone.
use escrow_fx_marketplace.Common.{
  ℕ, Bool, not, ◌&&◌, ◌||◌, Option, none, some, String, List, [], ◌∷◌, ◌++◌, any, find, ltb, ◌==◌,
  is_none,
}
use escrow_fx_marketplace.Domain.Errors.{not_found, conflict}
use escrow_fx_marketplace.Domain.Identity.{AuthToken}
use escrow_fx_marketplace.Store.Db.{Db}
use escrow_fx_marketplace.Store.Action.{
  Action, ◌>>=◌, ◌>>◌, pure, reads, fetch, write, write_if, wait,
}
use escrow_fx_marketplace.Store.Table.{update_where}
use text.Mathlib.Text.{◌==◌ as str_eq}

-- The table of a repository.
pub data TokenTable : Type 0 where
  email_verification password_reset : TokenTable

abbrev pub tokens_of : TokenTable → Db → List AuthToken
tokens_of TokenTable.email_verification d = d.email_tokens
tokens_of TokenTable.password_reset d = d.reset_tokens

abbrev pub with_tokens : TokenTable → List AuthToken → Db → Db
with_tokens TokenTable.email_verification tokens d = record d { email_tokens = tokens }
with_tokens TokenTable.password_reset tokens d = record d { reset_tokens = tokens }

-- The identifier and the hash are unique.
abbrev pub is_new_token : TokenTable → AuthToken → Db → Bool
is_new_token table token d =
    not (any (λ x. x.id == token.id || str_eq x.token_hash token.token_hash) (tokens_of table d))

-- `add`
unfoldable pub add_token : TokenTable → AuthToken → Action AuthToken
add_token table token = do
  write_if (is_new_token table token) conflict
      (λ d. with_tokens table (tokens_of table d ++ token ∷ []) d)
  pure token

-- `get_by_token_hash`
unfoldable pub get_by_token_hash : TokenTable → String → Action AuthToken
get_by_token_hash table token_hash =
    fetch (λ d. find (λ x. str_eq x.token_hash token_hash) (tokens_of table d)) not_found

-- The condition of the update in `consume`.
abbrev pub is_consumable : String → (now : ℕ) → AuthToken → Bool
is_consumable token_hash now token =
    str_eq token.token_hash token_hash && is_none token.consumed_at && ltb now token.expires_at

abbrev pub consumed : (now : ℕ) → AuthToken → AuthToken
consumed now token = record token { consumed_at = some now; updated_at = now }

abbrev pub consumed_or_none : (now : ℕ) → Option AuthToken → Option AuthToken
consumed_or_none now none = none
consumed_or_none now (some token) = some (consumed now token)

-- `consume`: one statement that updates the row, which it may wait for, and returns it.
unfoldable pub consume_token : TokenTable → String → (now : ℕ) → Action (Option AuthToken)
consume_token table token_hash now = do
  wait
  token ← reads (λ d. find (is_consumable token_hash now) (tokens_of table d))
  write (λ d.
      with_tokens table
        (update_where (is_consumable token_hash now) (consumed now) (tokens_of table d)) d)
  pure (consumed_or_none now token)
