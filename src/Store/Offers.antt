-- ===== src/Store/Offers.antt =====
-- SqlAlchemyExchangeOfferRepository.
use escrow_fx_marketplace.Common.{
  ℕ, Bool, true, false, not, ◌&&◌, ◌||◌, Option, none, some, List, [], ◌∷◌, ◌++◌, map, any, find,
  select, ltb, leb, ◌==◌,
}
use escrow_fx_marketplace.Domain.Errors.{
  not_found, conflict, missing_relation, multiple_results_found,
}
use escrow_fx_marketplace.Domain.Enums.{ExchangeOfferStatus, request_is_expired}
use escrow_fx_marketplace.Domain.Lifecycle.{offer_is_active}
use escrow_fx_marketplace.Domain.Entities.{ExchangeRequest, ExchangeOffer, ExchangeOfferDetails}
use escrow_fx_marketplace.Store.Db.{Db}
use escrow_fx_marketplace.Store.Action.{
  Action, ◌>>=◌, ◌>>◌, pure, raise, reads, fetch, write_if, write, wait, utc_now, collect,
}
use escrow_fx_marketplace.Store.Table.{update_where, sort_by}
use escrow_fx_marketplace.Store.Requests

abbrev pub by_id : ℕ → Db → Option ExchangeOffer
by_id offer_id d = find (λ o. o.id == offer_id) d.offers

unfoldable pub get : ℕ → Action ExchangeOffer
get offer_id = fetch (by_id offer_id) not_found

unfoldable pub get_for_update : ℕ → Action ExchangeOffer
get_for_update offer_id = do wait; fetch (by_id offer_id) not_found

abbrev pub insert : ExchangeOffer → Db → Db
insert offer d = record d { offers = d.offers ++ offer ∷ [] }

abbrev pub key_is_free : ExchangeOffer → Db → Bool
key_is_free offer d = not (any (λ o. o.id == offer.id) d.offers)

unfoldable pub add : ExchangeOffer → Action ExchangeOffer
add offer = do write_if (key_is_free offer) conflict (insert offer); pure offer

abbrev pub assign : ExchangeOffer → ExchangeOffer → ExchangeOffer
assign offer row = record row {
  status = offer.status;
  offered_rate = offer.offered_rate;
  expires_at = offer.expires_at;
  updated_at = offer.updated_at;
}

abbrev pub save : ExchangeOffer → Db → Db
save offer d = record d { offers = update_where (λ o. o.id == offer.id) (assign offer) d.offers }

unfoldable pub update : ExchangeOffer → Action Unit
update offer = do _ ← fetch (by_id offer.id) not_found; write (save offer)

abbrev pub of_request : ℕ → Db → List ExchangeOffer
of_request request_id d =
    sort_by (λ a b. leb b.created_at a.created_at)
      (select (λ o. o.request_id == request_id) d.offers)

unfoldable pub list_for_request : ℕ → Action (List ExchangeOffer)
list_for_request request_id = reads (of_request request_id)

unfoldable pub details_with : ExchangeOffer → Option ExchangeRequest → Option ExchangeOfferDetails
details_with o none = none
details_with o (some r) = some (record {
  offer = o;
  request_status = r.status;
  request_from_amount = r.from_amount;
  request_preferred_rate = r.preferred_rate;
  request_expires_at = r.expires_at;
})

-- `ExchangeOfferModel.to_details`, with the row's request joined.
unfoldable pub to_details : ExchangeOffer → Db → Option ExchangeOfferDetails
unfolding details_with
to_details o d = details_with o (Requests.by_id o.request_id d)

unfoldable pub list_details_for_request : ℕ → Action (List ExchangeOfferDetails)
unfolding list_for_request
list_details_for_request request_id = do
  rows ← list_for_request request_id
  collect rows (λ o. fetch (to_details o) missing_relation)

-- `request.has(ExchangeRequestModel.creator_user_id == viewer_user_id)`
abbrev pub request_is_by : Db → ℕ → ExchangeOffer → Bool
request_is_by d viewer o = any (λ r. r.id == o.request_id && r.creator_user_id == viewer) d.requests

unfoldable pub get_visible_details : ℕ → ℕ → Action ExchangeOfferDetails
unfolding to_details
get_visible_details offer_id viewer = do
  row ←
      fetch
        (λ d.
          find (λ o. o.id == offer_id && (o.offer_user_id == viewer || request_is_by d viewer o))
            d.offers)
        not_found
  fetch (to_details row) missing_relation

-- `scalar_one_or_none() is not None`
unfoldable pub one_or_none : List ExchangeOffer → Action Bool
one_or_none [] = pure false
one_or_none (_ ∷ []) = pure true
one_or_none (_ ∷ _ ∷ _) = raise multiple_results_found

unfoldable pub has_active_offer_for_request : ℕ → ℕ → Action Bool
unfolding one_or_none
has_active_offer_for_request request_id user_id = do
  now ← utc_now
  rows ← reads (λ d.
      select
        (λ o.
          o.request_id == request_id
          && o.offer_user_id == user_id
          && offer_is_active o.status
          && ltb now o.expires_at)
        d.offers)
  one_or_none rows

unfoldable pub has_active_for_user : ℕ → ℕ → Action Bool
has_active_for_user user_id now = reads (λ d.
    any (λ o. o.offer_user_id == user_id && offer_is_active o.status && ltb now o.expires_at)
      d.offers)

-- `request.has(ExchangeRequestModel.status == ExchangeRequestStatus.EXPIRED)`
abbrev pub request_has_expired : Db → ExchangeOffer → Bool
request_has_expired d o = any (λ r. r.id == o.request_id && request_is_expired r.status) d.requests

abbrev pub is_due : Db → ℕ → ExchangeOffer → Bool
is_due d now o = offer_is_active o.status && (leb o.expires_at now || request_has_expired d o)

abbrev pub expire : ℕ → ExchangeOffer → ExchangeOffer
expire now o = record o { status = ExchangeOfferStatus.expired; updated_at = now }

unfoldable pub expire_due : ℕ → Action (List ExchangeOffer)
expire_due now = do
  wait
  rows ← reads (λ d. select (is_due d now) d.offers)
  write (λ d. record d { offers = update_where (is_due d now) (expire now) d.offers })
  pure (map (expire now) rows)
