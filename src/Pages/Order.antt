-- ===== src/Pages/Order.antt =====
-- The order of a list is strict where identifiers are unique.
use escrow_fx_marketplace.Common.{
  ◌≡◌, Bool, true, false, List, [], ◌∷◌, All, All-weaken, ◌==◌, select, Bool-cases, inl, inr, arith,
}
use escrow_fx_marketplace.Store.Table.{insert_by, sort_by, All-insert_by, All-sort_by}
use escrow_fx_marketplace.Pages.Cursor.{Cursor, is_older, newest_first, ordered}

module _ {A : Type 0} (position : A → Cursor) where
  -- Every row stands before the rows that are older.
  abbrev pub IsDescending : List A → Type 0
  IsDescending [] = Unit
  IsDescending (x ∷ xs) = All (λ y. newest_first position x y ≡ true) xs × IsDescending xs

  -- No two rows have one identifier.
  abbrev pub IsDistinct : List A → Type 0
  IsDistinct [] = Unit
  IsDistinct (x ∷ xs) =
      All (λ y. ((position y).item_id == (position x).item_id) ≡ false) xs × IsDistinct xs

  pub newest_first_asym :
      (a b : A) → newest_first position a b ≡ true → is_older position (position b) a ≡ false
  newest_first_asym a b h = ground (arith, h)

  pub newest_first_irrefl : (a : A) → is_older position (position a) a ≡ false
  newest_first_irrefl a = ground arith

  newest_first_trans :
      (a b c : A)
      → newest_first position a b ≡ true
      → newest_first position b c ≡ true
      → newest_first position a c ≡ true
  newest_first_trans a b c h k = ground (arith, h, k)

  newest_first_total :
      (a b : A)
      → ((position b).item_id == (position a).item_id) ≡ false
      → newest_first position a b ≡ false
      → newest_first position b a ≡ true
  newest_first_total a b differ h = ground (arith, differ, h)

  insert_by-IsDescending :
      (x : A) (ys : List A)
      → All (λ y. ((position y).item_id == (position x).item_id) ≡ false) ys
      → IsDescending ys
      → IsDescending (insert_by (newest_first position) x ys)
  unfolding insert_by
  insert_by-IsDescending x [] differ h = (tt, tt)
  insert_by-IsDescending x (y ∷ ys) differ h = elim (Bool-cases (newest_first position x y)) [
    | inl first ↦ rw first (
      (
        first,
        All-weaken (λ z. newest_first position y z ≡ true) _
            (λ z k. newest_first_trans x y z first k) ys h.0,
      ),
      h,
    )
    | inr later ↦ rw later (
      All-insert_by (λ z. newest_first position y z ≡ true) (newest_first position) x ys
          (newest_first_total x y differ.0 later) h.0,
      insert_by-IsDescending x ys differ.1 h.1,
    )
  ]

  sort_by-IsDescending :
      (xs : List A) → IsDistinct xs → IsDescending (sort_by (newest_first position) xs)
  unfolding sort_by
  sort_by-IsDescending [] h = tt
  sort_by-IsDescending (x ∷ xs) h =
      insert_by-IsDescending x (sort_by (newest_first position) xs)
        (All-sort_by (λ y. ((position y).item_id == (position x).item_id) ≡ false)
          (newest_first position) xs h.0)
        (sort_by-IsDescending xs h.1)

  pub All-select :
      (P : A → Type 0) (test : A → Bool) (xs : List A) → All P xs → All P (select test xs)
  All-select P test [] h = tt
  All-select P test (x ∷ xs) h = elim (Bool-cases (test x)) [
    | inl hit ↦ rw hit (h.0, All-select P test xs h.1)
    | inr miss ↦ rw miss (All-select P test xs h.1)
  ]

  select-IsDistinct : (test : A → Bool) (xs : List A) → IsDistinct xs → IsDistinct (select test xs)
  select-IsDistinct test [] h = tt
  select-IsDistinct test (x ∷ xs) h = elim (Bool-cases (test x)) [
    | inl hit ↦ rw hit (All-select _ test xs h.0, select-IsDistinct test xs h.1)
    | inr miss ↦ rw miss (select-IsDistinct test xs h.1)
  ]

  pub ordered-IsDescending :
      (test : A → Bool) (rows : List A)
      → IsDistinct rows
      → IsDescending (ordered position test rows)
  unfolding ordered
  ordered-IsDescending test rows h =
      sort_by-IsDescending (select test rows) (select-IsDistinct test rows h)
