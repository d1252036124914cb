-- ===== src/Pages/Slices.antt =====
-- What cutting a list at a length, at a row or by a test does.
use mathlib.Core.List.{append_assoc}
use escrow_fx_marketplace.Common.{
  ℕ, zero, suc, ◌-◌, ◌≤◌, ◌<◌, ◌≡◌, refl, sym, ap, ◌∙◌, Bool, true, some, List, [], ◌∷◌, ◌++◌, All,
  length, take, drop, select, arith,
}
use escrow_fx_marketplace.Pages.Cursor.{last}

module _ {A : Type 0} where
  pub take-drop : (n : ℕ) (xs : List A) → take n xs ++ drop n xs ≡ xs
  take-drop zero xs = refl
  take-drop (suc n) [] = refl
  take-drop (suc n) (x ∷ xs) = ap (λ l. x ∷ l) (take-drop n xs)

  pub take_all : (n : ℕ) (xs : List A) → length xs ≤ n → take n xs ≡ xs
  take_all zero [] h = refl
  take_all zero (x ∷ xs) h = absurd (omega (arith, h))
  take_all (suc n) [] h = refl
  take_all (suc n) (x ∷ xs) h = ap (λ l. x ∷ l) (take_all n xs (omega (arith, h)))

  pub take-take : (n : ℕ) (xs : List A) → take n (take (suc n) xs) ≡ take n xs
  take-take zero xs = refl
  take-take (suc n) [] = refl
  take-take (suc n) (x ∷ xs) = ap (λ l. x ∷ l) (take-take n xs)

  pub length-drop : (n : ℕ) (xs : List A) → length (drop n xs) ≡ length xs - n
  length-drop zero xs = omega arith
  length-drop (suc n) [] = omega arith
  length-drop (suc n) (x ∷ xs) = omega (arith, length-drop n xs)

  pub length-take : (n : ℕ) (xs : List A) → n < length xs → length (take (suc n) xs) ≡ suc n
  length-take zero [] h = absurd (omega (arith, h))
  length-take zero (x ∷ xs) h = refl
  length-take (suc n) [] h = absurd (omega (arith, h))
  length-take (suc n) (x ∷ xs) h = omega (arith, length-take n xs (omega (arith, h)))

  -- A list that is not empty ends with its last row.
  pub last-append :
      (x : A) (xs : List A)
      → (init : List A) × (c : A) × ((x ∷ xs) ≡ init ++ c ∷ []) × (last (x ∷ xs) ≡ some c)
  last-append x [] = ([], x, refl, refl)
  last-append x (y ∷ xs) =
      let (init, c, e, f) = last-append y xs in (x ∷ init, c, ap (λ l. x ∷ l) e, f)

  pub regroup :
      (pre init : List A) (c : A) (page rest : List A)
      → page ≡ init ++ c ∷ []
      → pre ++ (page ++ rest) ≡ (pre ++ init) ++ c ∷ rest
  regroup pre init c page rest e =
      ap (λ l. pre ++ (l ++ rest)) e
      ∙ ap (λ l. pre ++ l) (append_assoc init (c ∷ []) rest)
      ∙ sym (append_assoc pre init (c ∷ rest))

  pub select-All :
      (test : A → Bool) (xs : List A) → All (λ x. test x ≡ true) xs → select test xs ≡ xs
  select-All test [] h = refl
  select-All test (x ∷ xs) h = rw (h.0, select-All test xs h.1) refl

  pub select_any : (xs : List A) → select (λ _. true) xs ≡ xs
  select_any [] = refl
  select_any (x ∷ xs) = ap (λ l. x ∷ l) (select_any xs)

  pub middle :
      (P : A → Type 0) (pre : List A) (c : A) (post : List A) → All P (pre ++ c ∷ post) → P c
  middle P [] c post h = h.0
  middle P (x ∷ pre) c post h = middle P pre c post h.1
