-- ===== src/Store/Requests.antt =====
-- SqlAlchemyExchangeRequestRepository.
use escrow_fx_marketplace.Common.{
  ℕ, Bool, false, not, ◌&&◌, ◌||◌, Option, none, some, List, [], ◌∷◌, ◌++◌, map, any, find, select,
  ltb, leb, ◌==◌,
}
use escrow_fx_marketplace.Domain.Errors.{not_found, conflict}
use escrow_fx_marketplace.Domain.Enums.{ExchangeRequestStatus, user_is_active, request_is_pending}
use escrow_fx_marketplace.Domain.Lifecycle.{request_can_accept_offers, offer_is_active}
use escrow_fx_marketplace.Domain.Entities.{ExchangeRequest}
use escrow_fx_marketplace.Store.Db.{Db}
use escrow_fx_marketplace.Store.Action.{
  Action, ◌>>=◌, ◌>>◌, pure, reads, fetch, write_if, write, wait, utc_now,
}
use escrow_fx_marketplace.Store.Table.{update_where, sort_by}
use escrow_fx_marketplace.Store.References.{has_active_currency}

abbrev pub by_id : ℕ → Db → Option ExchangeRequest
by_id request_id d = find (λ r. r.id == request_id) d.requests

unfoldable pub get : ℕ → Action ExchangeRequest
get request_id = fetch (by_id request_id) not_found

unfoldable pub get_for_update : ℕ → Action ExchangeRequest
get_for_update request_id = do wait; fetch (by_id request_id) not_found

abbrev pub relists : Option ℕ → Option ℕ → Bool
relists none _ = false
relists (some _) none = false
relists (some a) (some b) = a == b

-- The primary key and the unique `relisted_from_request_id` are free.
abbrev pub key_is_free : ExchangeRequest → Db → Bool
key_is_free request d = not (
    any
      (λ r.
        r.id == request.id || relists request.relisted_from_request_id r.relisted_from_request_id)
      d.requests)

abbrev pub insert : ExchangeRequest → Db → Db
insert request d = record d { requests = d.requests ++ request ∷ [] }

unfoldable pub add : ExchangeRequest → Action ExchangeRequest
add request = do write_if (key_is_free request) conflict (insert request); pure request

-- The fields that `update` assigns.
abbrev pub assign : ExchangeRequest → ExchangeRequest → ExchangeRequest
assign request row = record row {
  status = request.status;
  relisted_from_request_id = request.relisted_from_request_id;
  from_amount = request.from_amount;
  preferred_rate = request.preferred_rate;
  min_rate = request.min_rate;
  expires_at = request.expires_at;
  updated_at = request.updated_at;
}

abbrev pub save : ExchangeRequest → Db → Db
save request d = record d {
  requests = update_where (λ r. r.id == request.id) (assign request) d.requests;
}

-- The services write back the `relisted_from_request_id` that they read, so its constraint is not
-- tested again.
unfoldable pub update : ExchangeRequest → Action Unit
update request = do _ ← fetch (by_id request.id) not_found; write (save request)

-- `creator.has(UserModel.status == UserStatus.ACTIVE)`
abbrev pub creator_is_active : Db → ExchangeRequest → Bool
creator_is_active d r = any (λ u. u.id == r.creator_user_id && user_is_active u.status) d.users

-- What the board shows of a request to others than its creator.
abbrev pub is_on_board : Db → ℕ → ℕ → ExchangeRequest → Bool
is_on_board d viewer now r =
    not (r.creator_user_id == viewer)
    && creator_is_active d r
    && request_can_accept_offers r.status
    && ltb now r.expires_at
    && has_active_currency d r.from_currency_id
    && has_active_currency d r.to_currency_id

abbrev pub is_visible : Db → ℕ → ℕ → ExchangeRequest → Bool
is_visible d viewer now r = r.creator_user_id == viewer || is_on_board d viewer now r

abbrev pub find_visible : ℕ → ℕ → ℕ → Db → Option ExchangeRequest
find_visible request_id viewer now d =
    find (λ r. r.id == request_id && is_visible d viewer now r) d.requests

unfoldable pub get_visible_details : ℕ → ℕ → Action ExchangeRequest
get_visible_details request_id viewer = do
  now ← utc_now
  fetch (find_visible request_id viewer now) not_found

unfoldable pub get_details_for_user : ℕ → ℕ → Action ExchangeRequest
get_details_for_user request_id user_id =
    fetch (λ d. find (λ r. r.id == request_id && r.creator_user_id == user_id) d.requests) not_found

unfoldable pub list_board_details : ℕ → Action (List ExchangeRequest)
list_board_details viewer = do
  now ← utc_now
  reads (λ d.
      sort_by (λ a b. leb b.created_at a.created_at) (select (is_on_board d viewer now) d.requests))

abbrev pub is_due : ℕ → ExchangeRequest → Bool
is_due now r = request_can_accept_offers r.status && leb r.expires_at now

abbrev pub expire : ℕ → ExchangeRequest → ExchangeRequest
expire now r = record r { status = ExchangeRequestStatus.expired; updated_at = now }

-- A bulk UPDATE waits for the rows that another transaction has locked, and then tests them as they
-- were committed.
unfoldable pub expire_due : ℕ → Action (List ExchangeRequest)
expire_due now = do
  wait
  rows ← reads (λ d. select (is_due now) d.requests)
  write (λ d. record d { requests = update_where (is_due now) (expire now) d.requests })
  pure (map (expire now) rows)

-- `offers.any(ExchangeOfferModel.status == ExchangeOfferStatus.ACTIVE)`
abbrev pub has_active_offer : Db → ℕ → Bool
has_active_offer d request_id =
    any (λ o. o.request_id == request_id && offer_is_active o.status) d.offers

abbrev pub is_abandoned : Db → ExchangeRequest → Bool
is_abandoned d r = request_is_pending r.status && not (has_active_offer d r.id)

abbrev pub reopen : ℕ → ExchangeRequest → ExchangeRequest
reopen now r = record r { status = ExchangeRequestStatus.request_open; updated_at = now }

-- After a wait the database does not read the offers of the subquery again; here it does, which makes
-- no difference where transactions run one after the other.
unfoldable pub reopen_pending_without_active_offers : ℕ → Action (List ExchangeRequest)
reopen_pending_without_active_offers now = do
  wait
  rows ← reads (λ d. select (is_abandoned d) d.requests)
  write (λ d. record d { requests = update_where (is_abandoned d) (reopen now) d.requests })
  pure (map (reopen now) rows)

unfoldable pub has_any_offers : ℕ → Action Bool
has_any_offers request_id = reads (λ d. any (λ o. o.request_id == request_id) d.offers)

unfoldable pub has_relisted_successor : ℕ → Action Bool
has_relisted_successor request_id =
    reads (λ d. any (λ r. relists (some request_id) r.relisted_from_request_id) d.requests)

unfoldable pub has_actionable_for_creator : ℕ → ℕ → Action Bool
has_actionable_for_creator user_id now = reads (λ d.
    any
      (λ r.
        r.creator_user_id == user_id && request_can_accept_offers r.status && ltb now r.expires_at)
      d.requests)
