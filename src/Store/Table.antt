-- ===== src/Store/Table.antt =====
-- Rows of a table: `order_by`, and what a scan, a selection or an order keeps.
use mathlib.Core.Bool.{false≢true}
use escrow_fx_marketplace.Common.{
  ◌≡◌, Bool, true, false, List, [], ◌∷◌, map, All, select, if◌then◌else◌, All-weaken,
}

module _ {A : Type 0} where
  unfoldable pub insert_by : (A → A → Bool) → A → List A → List A
  insert_by before x [] = x ∷ []
  insert_by before x (y ∷ ys) = if before x y then x ∷ y ∷ ys else y ∷ insert_by before x ys

  -- A stable sort, for `ORDER BY` and for `sorted`.
  unfoldable pub sort_by : (A → A → Bool) → List A → List A
  unfolding insert_by
  sort_by before [] = []
  sort_by before (x ∷ xs) = insert_by before x (sort_by before xs)

  -- `UPDATE ... SET ... WHERE test`
  abbrev pub update_where : (A → Bool) → (A → A) → List A → List A
  update_where test f = map (λ x. if test x then f x else x)

module _ {ℓ} {A : Type 0} (P : A → Type ℓ) where
  insert_by-All :
      (before : A → A → Bool) (x : A) (ys : List A) → All P (insert_by before x ys) → P x × All P ys
  unfolding insert_by
  insert_by-All before x [] h = h
  insert_by-All before x (y ∷ ys) h =
      let ih = insert_by-All before x ys in
      (elim (before x y)
          as (λ b.
            All P (if b then x ∷ y ∷ ys else y ∷ insert_by before x ys) → P x × All P (y ∷ ys)) [
              | true ↦ λ h. (h.0, h.1)
              | false ↦ λ h. ((ih h.1).0, (h.0, (ih h.1).1))
            ])
        h

  -- What holds of every row of an ordered result holds of every row of the selection.
  pub sort_by-All : (before : A → A → Bool) (xs : List A) → All P (sort_by before xs) → All P xs
  unfolding sort_by
  sort_by-All before [] h = tt
  sort_by-All before (x ∷ xs) h =
      let (px, rest) = insert_by-All before x (sort_by before xs) h in
      (px, sort_by-All before xs rest)

  -- What holds of every selected row holds of every row that passes the test.
  pub select-All :
      (test : A → Bool) (xs : List A) → All P (select test xs) → All (λ x. test x ≡ true → P x) xs
  select-All test [] h = tt
  select-All test (x ∷ xs) h =
      let ih = select-All test xs in
      (elim (test x)
          as (λ b.
            All P (if b then x ∷ select test xs else select test xs)
            → (b ≡ true → P x) × All (λ x. test x ≡ true → P x) xs) [
              | true ↦ λ h. ((λ _. h.0), ih h.1)
              | false ↦ λ h. ((λ e. absurd (false≢true e)), ih h)
            ])
        h

-- A fact about every pair of rows holds of every row with itself.
pub All-diagonal {ℓ} :
    {A : Type 0} (R : A → A → Type ℓ) (xs : List A)
    → All (λ x. All (R x) xs) xs
    → All (λ x. R x x) xs
All-diagonal R [] h = tt
All-diagonal R (x ∷ xs) h =
    (h.0.0, All-diagonal R xs (All-weaken (λ y. All (R y) (x ∷ xs)) _ (λ y p. p.1) xs h.1))

module _ {ℓ} {A : Type 0} (P : A → Type ℓ) where
  pub All-insert_by :
      (before : A → A → Bool) (x : A) (ys : List A) → P x → All P ys → All P (insert_by before x ys)
  unfolding insert_by
  All-insert_by before x [] p h = (p, tt)
  All-insert_by before x (y ∷ ys) p h =
      elim (before x y) as (λ b. All P (if b then x ∷ y ∷ ys else y ∷ insert_by before x ys)) [
        | true ↦ (p, h)
        | false ↦ (h.0, All-insert_by before x ys p h.1)
      ]

  -- And the other way round.
  pub All-sort_by : (before : A → A → Bool) (xs : List A) → All P xs → All P (sort_by before xs)
  unfolding sort_by
  All-sort_by before [] h = tt
  All-sort_by before (x ∷ xs) h =
      All-insert_by before x (sort_by before xs) h.0 (All-sort_by before xs h.1)
