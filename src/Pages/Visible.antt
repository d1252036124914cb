-- ===== src/Pages/Visible.antt =====
-- What a page of the board shows.
use escrow_fx_marketplace.Common.{
  ℕ, zero, suc, ◌+◌, ◌≡◌, refl, sym, subst, ap, Bool, true, false, not, ◌&&◌, ◌||◌, Option, some,
  List, [], ◌∷◌, All, All-weaken, All-apply, take, select, find, ◌==◌, Bool-cases, inl, inr, arith,
}
use escrow_fx_marketplace.Domain.Errors.{Result, ok, err}
use escrow_fx_marketplace.Domain.Entities.{ExchangeRequest}
use escrow_fx_marketplace.Store.Db.{Db}
use escrow_fx_marketplace.Store.Table.{All-sort_by}
use escrow_fx_marketplace.Store.Action.{Env, Session, ◌>>=◌, utc_now, reads, fetch}
use escrow_fx_marketplace.Store.Requests.{is_on_board, is_visible, get_visible_details}
use escrow_fx_marketplace.Pages.Cursor.{Cursor, page_cursor, ordered, page_of, before_cursor}
use escrow_fx_marketplace.Pages.Order.{IsDistinct, All-select}
use escrow_fx_marketplace.Pages.Board.{
  request_position, Page, BoardFilters, matches, is_listed, list_board_details_page,
}

module _ {A : Type 0} where
  pub All-take : (P : A → Type 0) (n : ℕ) (xs : List A) → All P xs → All P (take n xs)
  All-take P zero xs h = tt
  All-take P (suc n) [] h = tt
  All-take P (suc n) (x ∷ xs) h = (h.0, All-take P n xs h.1)

  -- A selection of rows of which something holds has rows that pass the test as well.
  pub select-both :
      (P : A → Type 0) (test : A → Bool) (xs : List A)
      → All P xs
      → All (λ x. P x × (test x ≡ true)) (select test xs)
  select-both P test [] h = tt
  select-both P test (x ∷ xs) h = elim (Bool-cases (test x)) [
    | inl hit ↦ rw hit ((h.0, hit), select-both P test xs h.1)
    | inr miss ↦ rw miss (select-both P test xs h.1)
  ]

module _ {A : Type 0} (position : A → Cursor) where
  -- A page has rows of the table that pass the filters of its list.
  pub page_of-All :
      (P : A → Type 0) (test : A → Bool) (rows : List A) (limit : ℕ) (cursor : Option Cursor)
      → All P rows
      → All (λ x. P x × (test x ≡ true)) (page_of position test rows limit cursor).0
  unfolding page_of page_cursor ordered
  page_of-All P test rows limit cursor h =
      let Q : A → Type 0 = λ x. P x × (test x ≡ true) in
      All-take Q limit _ (
        All-take Q (limit + 1) _ (
          All-select position Q (before_cursor position cursor) _
            (All-sort_by Q _ (select test rows) (select-both P test rows h))))

  -- Where identifiers are unique, a row is the one that is found by its identifier.
  abbrev pub IsFoundIn : List A → A → Type 0
  IsFoundIn rows x =
      (test : A → Bool)
      → test x ≡ true
      → find (λ y. (position y).item_id == (position x).item_id && test y) rows ≡ some x

  found_later :
      (x : A) (xs : List A) (y : A)
      → ((position y).item_id == (position x).item_id) ≡ false
      → IsFoundIn xs y
      → IsFoundIn (x ∷ xs) y
  found_later x xs y differ h test hit = rw (other x y differ) (h test hit)
    where
      other :
          (x y : A)
          → ((position y).item_id == (position x).item_id) ≡ false
          → ((position x).item_id == (position y).item_id) ≡ false
      other x y h = ground (arith, h)

  pub rows-found : (rows : List A) → IsDistinct position rows → All (IsFoundIn rows) rows
  rows-found [] h = tt
  rows-found (x ∷ xs) h = (
    (λ test hit. rw (same x, hit) refl),
    All-apply (λ y. ((position y).item_id == (position x).item_id) ≡ false) (IsFoundIn (x ∷ xs)) xs
        (All-weaken (IsFoundIn xs) _ (λ y found differ. found_later x xs y differ found) xs
          (rows-found xs h.1))
        h.0,
  )
    where
      same : (x : A) → ((position x).item_id == (position x).item_id) ≡ true
      same x = ground arith

-- Each row on a page of the board passes the filters, is not the viewer's own, and is one that the
-- viewer can open.
abbrev pub IsShown : Env → Session → ℕ → BoardFilters → ExchangeRequest → Type 0
IsShown env s viewer q r =
    (matches s.db q r ≡ true)
    × ((r.creator_user_id == viewer) ≡ false)
    × (get_visible_details r.id viewer env s ≡ (ok r, record s { ticks = s.ticks + 1 }))

pub both : (a b : Bool) → (a && b) ≡ true → (a ≡ true) × (b ≡ true)
both a b h = ground (arith, h)

either : (a b : Bool) → b ≡ true → (a || b) ≡ true
either a b h = ground (arith, h)

not-true : (a : Bool) → not a ≡ true → a ≡ false
not-true a h = ground (arith, h)

is_on_board-other :
    (d : Db) (viewer now : ℕ) (r : ExchangeRequest)
    → is_on_board d viewer now r ≡ true
    → (r.creator_user_id == viewer) ≡ false
is_on_board-other d viewer now r h =
    not-true (r.creator_user_id == viewer)
      (both _ _ (both _ _ (both _ _ (both _ _ (both _ _ h).0).0).0).0).0

is_listed-IsShown :
    (env : Env) (s : Session) (viewer : ℕ) (q : BoardFilters) (r : ExchangeRequest)
    → IsFoundIn request_position s.db.requests r
    → is_listed s.db viewer (env.clock s.ticks) q r ≡ true
    → IsShown env s viewer q r
unfolding get_visible_details ◌>>=◌ utc_now fetch
is_listed-IsShown env s viewer q r found listed =
    let now = env.clock s.ticks in
    let (board, filters) = both (is_on_board s.db viewer now r) (matches s.db q r) listed in
    let visible = either (r.creator_user_id == viewer) (is_on_board s.db viewer now r) board in
    (
      filters,
      is_on_board-other s.db viewer now r board,
      rw (found (is_visible s.db viewer now) visible) refl,
    )

abbrev rows_of : Result (Page ExchangeRequest) → List ExchangeRequest
rows_of (ok p) = p.0
rows_of (err e) = []

page_rows :
    (env : Env) (s s' : Session) (viewer : ℕ) (cursor : Option Cursor) (limit : ℕ)
    (q : BoardFilters) (page : List ExchangeRequest) (next : Option Cursor)
    → list_board_details_page viewer cursor limit q env s ≡ (ok (page, next), s')
    → page
      ≡ (page_of request_position
          (is_listed s.db viewer (env.clock s.ticks) q)
          s.db.requests
          limit
          cursor).0
unfolding list_board_details_page ◌>>=◌ utc_now reads
page_rows env s s' viewer cursor limit q page next run = ap (λ p. rows_of p.0) (sym run)

-- If a page of the board is read where identifiers are unique, each of its rows passes the filters,
-- is not a request of the viewer, and is what `get_visible_details` returns to the viewer at the
-- same reading of the clock.
pub list_board_details_page-IsShown :
    (env : Env) (s s' : Session) (viewer : ℕ) (cursor : Option Cursor) (limit : ℕ)
    (q : BoardFilters) (page : List ExchangeRequest) (next : Option Cursor)
    → IsDistinct request_position s.db.requests
    → list_board_details_page viewer cursor limit q env s ≡ (ok (page, next), s')
    → All (IsShown env s viewer q) page
list_board_details_page-IsShown env s s' viewer cursor limit q page next distinct run =
    let rows = s.db.requests in
    let found = rows-found request_position rows distinct in
    let test = is_listed s.db viewer (env.clock s.ticks) q in
    subst (All (IsShown env s viewer q))
      (sym (page_rows env s s' viewer cursor limit q page next run))
      (All-weaken (λ r. IsFoundIn request_position rows r × (test r ≡ true))
        (IsShown env s viewer q) (λ r h. is_listed-IsShown env s viewer q r h.0 h.1) _
        (page_of-All request_position (IsFoundIn request_position rows) test rows limit cursor
          found))
