-- ===== src/Service/Locks.antt =====
-- The optimistic checks that `accept_offer` and `cancel_request` share: the offers of a request
-- are listed before and after the locks on users are taken, and their owners must be the same.
use escrow_fx_marketplace.Common.{ℕ, Bool, true, not, ◌&&◌, ◌||◌, List, [], ◌∷◌, any, leb, ◌==◌}
use escrow_fx_marketplace.Domain.Errors.{conflict}
use escrow_fx_marketplace.Domain.Entities.{ExchangeOffer}
use escrow_fx_marketplace.Store.Action.{Action, ◌>>=◌, ◌>>◌, pure, raise_if, collect}
use escrow_fx_marketplace.Store.Table.{sort_by}
use escrow_fx_marketplace.Store.Offers

-- `owners[offer.id] == offer.offer_user_id`, with a missing key read as a difference.
abbrev pub has_owner : List ExchangeOffer → ExchangeOffer → Bool
has_owner owners offer =
    any (λ o. o.id == offer.id && o.offer_user_id == offer.offer_user_id) owners

abbrev pub included : List ExchangeOffer → List ExchangeOffer → Bool
included [] owners = true
included (offer ∷ offers) owners = has_owner owners offer && included offers owners

-- Equality of the two dictionaries from identifiers to owners.
abbrev pub participants_unchanged : List ExchangeOffer → List ExchangeOffer → Bool
participants_unchanged before after = included after before && included before after

unfoldable pub lock_offer :
    (request_id : ℕ) → List ExchangeOffer → ExchangeOffer → Action ExchangeOffer
lock_offer request_id initial_offers current_offer = do
  locked_offer ← Offers.get_for_update current_offer.id
  raise_if
      (not (locked_offer.request_id == request_id) || not (has_owner initial_offers locked_offer))
      conflict
  pure locked_offer

-- The loop over `sorted(current_offers, key=lambda offer: offer.id.int)`.
unfoldable pub lock_offers :
    (request_id : ℕ) (initial_offers current_offers : List ExchangeOffer)
    → Action (List ExchangeOffer)
unfolding lock_offer
lock_offers request_id initial_offers current_offers =
    collect (sort_by (λ a b. leb a.id b.id) current_offers) (lock_offer request_id initial_offers)
