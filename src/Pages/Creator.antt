-- ===== src/Pages/Creator.antt =====
-- Who is shown the offers on a request.
use escrow_fx_marketplace.Common.{
  ℕ, ◌≡◌, sym, subst, ap, ◌∙◌, true, ◌&&◌, Option, none, some, List, [], ◌∷◌, All, All-weaken,
  All-trivial, ◌==◌, ==→eq, arith,
}
use mathlib.Core.Option.{some-injective, none-ne-some}
use escrow_fx_marketplace.Domain.Errors.{ok, missing_relation}
use escrow_fx_marketplace.Domain.Entities.{ExchangeRequest, ExchangeOffer, ExchangeOfferDetails}
use escrow_fx_marketplace.Store.Db.{Db}
use escrow_fx_marketplace.Store.Action.{Env, Session, ◌>>◌, collect, pure, fetch}
use escrow_fx_marketplace.Store.Ensures.{
  Ensures, value-Ensures, Ensures-bind, fetch-Ensures, fetch_last-Ensures, raise_if-Ensures,
  lift-Ensures, reads-Ensures, pure-Ensures,
}
use escrow_fx_marketplace.Store.Requests
use escrow_fx_marketplace.Store.Offers
use escrow_fx_marketplace.Pages.Cursor.{Cursor, page_of}
use escrow_fx_marketplace.Pages.Filters.{DateRange, is_created_in}
use escrow_fx_marketplace.Pages.Board.{Page}
use escrow_fx_marketplace.Pages.Dealings.{
  offer_position, offer_page, list_details_for_request_page, list_offers_for_request_page,
}
use escrow_fx_marketplace.Pages.Visible.{page_of-All, both}

abbrev Any : Db → Type 0
Any _ = Unit {0}

-- The row of the database and the projection of an offer.
to_details-offer :
    (o : ExchangeOffer) (d : Db) (x : ExchangeOfferDetails)
    → Offers.to_details o d ≡ some x
    → x.offer ≡ o
unfolding Offers.to_details Offers.details_with
to_details-offer o d x e = row_of (Requests.by_id o.request_id d) e
  where
    row_of : (r : Option ExchangeRequest) → Offers.details_with o r ≡ some x → x.offer ≡ o
    row_of none e = absurd (none-ne-some x e)
    row_of (some r) e = ap (λ (x : ExchangeOfferDetails). x.offer) (sym (some-injective _ _ e))

module _ (env : Env) (request_id : ℕ) where
  abbrev IsOn : ExchangeOfferDetails → Type 0
  IsOn x = x.offer.request_id ≡ request_id

  details-Ensures :
      (rows : List ExchangeOffer) (s : Session)
      → All (λ o. o.request_id ≡ request_id) rows
      → Ensures Any
          (λ xs _. All IsOn xs)
          (collect rows (λ o. fetch (Offers.to_details o) missing_relation) env s)
  unfolding collect
  details-Ensures [] s h = pure-Ensures env [] s tt tt
  details-Ensures (o ∷ rows) s h =
      Ensures-bind (fetch (Offers.to_details o) missing_relation) _ s
        (fetch_last-Ensures env {Q = λ x _. IsOn x} (Offers.to_details o) missing_relation s tt
          λ x e. ap (λ (o : ExchangeOffer). o.request_id) (to_details-offer o s.db x e) ∙ h.0)
        λ x s _ on.
          Ensures-bind (collect rows (λ o. fetch (Offers.to_details o) missing_relation))
            (λ xs. pure (x ∷ xs)) s (details-Ensures rows s h.1)
            λ xs s _ rest. pure-Ensures env (x ∷ xs) s tt (on, rest)

  page-Ensures :
      {P : Type 0} (p : Page ExchangeOffer) (s : Session)
      → P
      → All (λ o. o.request_id ≡ request_id) p.0
      → Ensures Any (λ q _. P × All IsOn q.0) (offer_page p env s)
  unfolding offer_page
  page-Ensures (models, next) s h on =
      Ensures-bind (collect models (λ o. fetch (Offers.to_details o) missing_relation))
        (λ items. pure (items, next)) s (details-Ensures models s on)
        λ items t _ on. pure-Ensures env (items, next) t tt (h, on)

  models-IsOn :
      (cursor : Option Cursor) (limit : ℕ) (created : DateRange) (rows : List ExchangeOffer)
      → All
          (λ o. o.request_id ≡ request_id)
          (page_of offer_position
            (λ o. o.request_id == request_id && is_created_in created o.created_at)
            rows
            limit
            cursor).0
  models-IsOn cursor limit created rows =
      All-weaken _ _ (λ (o : ExchangeOffer) h. of_request o h.1) _
        (page_of-All offer_position (λ _. Unit {0}) _ rows limit cursor (All-trivial rows))
    where
      of_request :
          (o : ExchangeOffer)
          → (o.request_id == request_id && is_created_in created o.created_at) ≡ true
          → o.request_id ≡ request_id
      of_request o h = ==→eq o.request_id request_id (both _ _ h).0

-- The creator of a request.
abbrev pub IsCreator : ℕ → ℕ → Db → Type 0
IsCreator request_id user_id d =
    (request : ExchangeRequest) × (Requests.by_id request_id d ≡ some request)
    × (request.creator_user_id ≡ user_id)

-- If the offers on a request are listed for a user, that user has created the request, and the
-- page has offers on that request only.
pub list_offers_for_request_page-IsForCreator :
    (env : Env) (s s' : Session) (request_id user_id : ℕ) (cursor : Option Cursor) (limit : ℕ)
    (created : DateRange) (items : List ExchangeOfferDetails) (next : Option Cursor)
    → list_offers_for_request_page request_id user_id cursor limit created env s
      ≡ (ok (items, next), s')
    → IsCreator request_id user_id s.db × All (λ x. x.offer.request_id ≡ request_id) items
unfolding list_offers_for_request_page list_details_for_request_page Requests.get ◌>>◌
list_offers_for_request_page-IsForCreator env s s' request_id user_id cursor limit created items
      next run =
    let Shown : Page ExchangeOfferDetails → Db → Type 0 =
      λ q _. IsCreator request_id user_id s.db × All (IsOn env request_id) q.0 in
    value-Ensures {I = Any} {Q = Shown} (
      subst (Ensures Any Shown) run (
        lift-Ensures _ _ s tt λ _ _. fetch-Ensures _ _ _ s tt λ request row.
          raise_if-Ensures _ _ _ s tt λ creator. reads-Ensures _ _ s (
            page-Ensures env request_id _ s
              (request, row, ==→eq request.creator_user_id user_id (ground (arith, creator)))
              (models-IsOn env request_id cursor limit created s.db.offers))))
