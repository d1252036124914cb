-- ===== src/Pages/Complete.antt =====
-- The pages of a list make up the list.
use mathlib.Core.List.{append-nil, append_assoc}
use escrow_fx_marketplace.Common.{
  ℕ, zero, suc, ◌+◌, ◌≤◌, ◌<◌, ◌≡◌, refl, sym, subst, ap, ◌∙◌, Bool, true, false, Option, none,
  some, List, [], ◌∷◌, ◌++◌, ltb, ltb→le, ltb→lt, length, take, drop, select, Bool-cases, inl, inr,
  arith,
}
use escrow_fx_marketplace.Pages.Slices.{
  take-drop, take_all, take-take, length-drop, length-take, last-append, regroup, select-All,
  select_any, middle,
}
use escrow_fx_marketplace.Pages.Cursor.{
  Cursor, last, is_older, before_cursor, newest_first, next_cursor, page_cursor, ordered, page_of,
  follow,
}
use escrow_fx_marketplace.Pages.Order.{
  IsDescending, IsDistinct, newest_first_asym, newest_first_irrefl, ordered-IsDescending,
}

module _ {A : Type 0} (position : A → Cursor) where
  -- The keyset predicate cuts a list behind the row of the cursor.
  select-is_older :
      (pre : List A) (c : A) (post : List A)
      → IsDescending position (pre ++ c ∷ post)
      → select (is_older position (position c)) (pre ++ c ∷ post) ≡ post
  select-is_older [] c post h =
      rw (newest_first_irrefl position c) (select-All (is_older position (position c)) post h.0)
  select-is_older (x ∷ pre) c post h =
      rw
        (newest_first_asym position x c
          (middle (λ y. newest_first position x y ≡ true) pre c post h.0))
        (select-is_older pre c post h.1)

  module _ (test : A → Bool) (rows : List A) (limit : ℕ) where
    -- What a client reads that follows the cursors, page by page.
    unfoldable pub follow_pages : (fuel : ℕ) → Option Cursor → List A
    unfolding page_of
    follow_pages zero cursor = []
    follow_pages (suc fuel) cursor =
        let (page, next) = page_of position test rows limit cursor in
        page ++ follow next (follow_pages fuel)

  -- A page that has no more rows behind it.
  last_page :
      (limit : ℕ) (post : List A)
      → length post ≤ limit
      → page_cursor position (take (limit + 1) post) limit ≡ (post, none)
  unfolding page_cursor
  last_page limit post short =
      ap (λ l. (take limit l, next_cursor position (ltb limit (length l)) (last (take limit l))))
        (take_all (limit + 1) post (omega (arith, short)))
      ∙ rw (not_beyond, take_all limit post short) refl
    where
      not_beyond : ltb limit (length post) ≡ false
      not_beyond = ground (arith, short)

  with_next :
      {page page' : List A} {has_next : Bool} {o : Option A} {c : A}
      → page ≡ page'
      → has_next ≡ true
      → o ≡ some c
      → ◌≡◌ {A = List A × Option Cursor}
          (page, next_cursor position has_next o)
          (page', some (position c))
  with_next e f g = rw (e, f, g) refl

  -- A page with rows behind it ends with the row of the next cursor.
  full_page :
      (limit : ℕ) (post : List A)
      → 1 ≤ limit
      → limit < length post
      → (init : List A) × (c : A) × (take limit post ≡ init ++ c ∷ [])
        × (page_cursor position (take (limit + 1) post) limit
            ≡ (take limit post, some (position c)))
  unfolding page_cursor
  full_page zero post positive long = absurd (omega (arith, positive))
  full_page (suc l) [] positive long = absurd (omega (arith, long))
  full_page (suc l) (x ∷ xs) positive long =
      let (init, c, e, f) = last-append x (take l xs) in
      (
        init,
        c,
        e,
        ap
              (λ n. (
                take (suc l) (take n (x ∷ xs)),
                next_cursor position (ltb (suc l) (length (take n (x ∷ xs))))
                    (last (take (suc l) (take n (x ∷ xs)))),
              ))
              (one_more (suc l))
            ∙ with_next (take-take (suc l) (x ∷ xs))
                (ap (λ n. ltb (suc l) n) (length-take (suc l) (x ∷ xs) long) ∙ beyond (suc l))
                (ap last (take-take (suc l) (x ∷ xs)) ∙ f),
      )
    where
      one_more : (n : ℕ) → n + 1 ≡ suc n
      one_more n = omega arith

      beyond : (n : ℕ) → ltb n (suc n) ≡ true
      beyond n = ground arith

  module _ (test : A → Bool) (rows : List A) (limit : ℕ) (positive : 1 ≤ limit)
      (distinct : IsDistinct position rows) where
    page_step :
        (cursor : Option Cursor) (post : List A)
        → select (before_cursor position cursor) (ordered position test rows) ≡ post
        → page_of position test rows limit cursor
          ≡ page_cursor position (take (limit + 1) post) limit
    unfolding page_of
    page_step cursor post e = ap (λ l. page_cursor position (take (limit + 1) l) limit) e

    -- A page and what the client reads after it.
    read_step :
        (fuel : ℕ) (cursor : Option Cursor) (page : List A) (next : Option Cursor)
        → page_of position test rows limit cursor ≡ (page, next)
        → follow_pages test rows limit (suc fuel) cursor
          ≡ page ++ follow next (follow_pages test rows limit fuel)
    unfolding follow_pages
    read_step fuel cursor page next e =
        ap (λ p. p.0 ++ follow p.1 (follow_pages test rows limit fuel)) e

    -- From a cursor, the pages are the rows behind it.
    pages_behind :
        (fuel : ℕ) (cursor : Option Cursor) (pre post : List A)
        → ordered position test rows ≡ pre ++ post
        → select (before_cursor position cursor) (ordered position test rows) ≡ post
        → length post < fuel
        → follow_pages test rows limit fuel cursor ≡ post
    pages_behind zero cursor pre post split e h = absurd (omega (arith, h))
    pages_behind (suc fuel) cursor pre post split e h =
        elim (Bool-cases (ltb limit (length post))) [
          | inr short ↦
              read_step fuel cursor post none
                (page_step cursor post e ∙ last_page limit post (ltb→le limit (length post) short))
              ∙ append-nil post
          | inl long ↦
              let (init, c, page, cut) =
                full_page limit post positive (ltb→lt limit (length post) long) in
              let rest = drop limit post in
              let whole = regroup pre init c (take limit post) rest page in
              let cut_list = split ∙ ap (λ l. pre ++ l) (sym (take-drop limit post)) ∙ whole in
              read_step fuel cursor (take limit post) (some (position c))
                (page_step cursor post e ∙ cut)
              ∙ ap (λ l. take limit post ++ l)
                  (pages_behind fuel (some (position c)) ((pre ++ init) ++ c ∷ []) rest
                    (cut_list ∙ sym (append_assoc (pre ++ init) (c ∷ []) rest))
                    (ap (select (is_older position (position c))) cut_list
                      ∙ select-is_older (pre ++ init) c rest (
                          subst (IsDescending position) cut_list
                            (ordered-IsDescending position test rows distinct)))
                    (omega (
                      arith,
                      length-drop limit post,
                      h,
                      ltb→lt limit (length post) long,
                      positive,
                    )))
              ∙ take-drop limit post
        ]

  -- Where identifiers are unique and a page holds at least one row, a client that starts without a
  -- cursor and follows the cursors reads every row of the list once, newest first, if it asks for
  -- more pages than there are rows.
  pub follow_pages-eq-ordered :
      (test : A → Bool) (rows : List A) (limit fuel : ℕ)
      → 1 ≤ limit
      → IsDistinct position rows
      → length (ordered position test rows) < fuel
      → follow_pages test rows limit fuel none ≡ ordered position test rows
  follow_pages-eq-ordered test rows limit fuel positive distinct enough =
      pages_behind test rows limit positive distinct fuel none [] (ordered position test rows) refl
        (select_any (ordered position test rows)) enough
