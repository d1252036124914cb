-- ===== src/Pages/Cursor.antt =====
-- `Cursor`, `_before_cursor` and `_page_cursor`, and the statement of a page.
use escrow_fx_marketplace.Common.{
  ℕ, ◌+◌, Bool, true, false, ◌&&◌, ◌||◌, Option, none, some, List, [], ◌∷◌, ltb, ◌==◌, length, take,
  select,
}
use escrow_fx_marketplace.Domain.Errors.{Result, ok, err, invariant_violation}
use escrow_fx_marketplace.Store.Table.{sort_by}

-- `Cursor`
pub record Cursor : Type 0 where
  pub created_at : ℕ
  pub item_id : ℕ

-- `validate_date_range`, and `normalize_date_range` on instants.
unfoldable pub validate_date_range : Option ℕ → Option ℕ → Result (Unit {0})
validate_date_range (some start) (some end) = elim (ltb end start) [
  | true ↦ err invariant_violation
  | false ↦ ok tt
]
validate_date_range _ _ = ok tt

-- `last(page)`
abbrev pub last : {A : Type 0} → List A → Option A
last [] = none
last (x ∷ []) = some x
last (x ∷ y ∷ xs) = last (y ∷ xs)

-- A client that goes on with the next cursor, if there is one.
abbrev pub follow : {B : Type 0} → Option Cursor → (Option Cursor → List B) → List B
follow none rest = []
follow (some c) rest = rest (some c)

module _ {A : Type 0} (position : A → Cursor) where
  -- The keyset predicate of a cursor.
  abbrev pub is_older : Cursor → A → Bool
  is_older c x =
      ltb (position x).created_at c.created_at
      || ((position x).created_at == c.created_at && ltb (position x).item_id c.item_id)

  -- `_before_cursor`
  abbrev pub before_cursor : Option Cursor → A → Bool
  before_cursor none x = true
  before_cursor (some c) x = is_older c x

  -- `order_by(created_at.desc(), id.desc())`
  abbrev pub newest_first : A → A → Bool
  newest_first a b = is_older (position a) b

  abbrev pub next_cursor : (has_next : Bool) → Option A → Option Cursor
  next_cursor true (some x) = some (position x)
  next_cursor _ _ = none

  -- `_page_cursor`
  unfoldable pub page_cursor : List A → (limit : ℕ) → List A × Option Cursor
  page_cursor models limit =
      (take limit models, next_cursor (ltb limit (length models)) (last (take limit models)))

  -- The rows that a list shows, newest first.
  unfoldable pub ordered : (A → Bool) → List A → List A
  ordered test rows = sort_by newest_first (select test rows)

  -- A page of a list: the rows that pass its filters, in order, behind the cursor, one more than the
  -- limit.
  unfoldable pub page_of :
      (A → Bool) → List A → (limit : ℕ) → Option Cursor → List A × Option Cursor
  unfolding ordered page_cursor
  page_of test rows limit cursor =
      page_cursor (take (limit + 1) (select (before_cursor cursor) (ordered test rows))) limit
