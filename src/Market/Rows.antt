-- ===== src/Market/Rows.antt =====
-- Scans of a table whose rows have a unique key.
use mathlib.Core.Bool.{false≢true}
use escrow_fx_marketplace.Common.{
  ℕ, ◌≡◌, refl, sym, ◌∙◌, ap, Bool, true, false, some, List, [], ◌∷◌, ◌++◌, map, any, find, All,
  All-weaken, arith, ◌==◌, Bool-cases, inl, inr, ==→eq,
}

module _ {A : Type 0} (test : A → Bool) where
  pub find-passes : (xs : List A) {a : A} → find test xs ≡ some a → test a ≡ true
  find-passes [] e = cc
  find-passes (x ∷ xs) {a} e = elim (Bool-cases (test x)) [
    | inl t ↦ let e' : some x ≡ some a = (rw t at e) in ground (arith, e', t)
    | inr f ↦ find-passes xs (rw f at e)
  ]

  pub find-All {ℓ} : (P : A → Type ℓ) (xs : List A) {a : A} → All P xs → find test xs ≡ some a → P a
  find-All P [] h e = absurd (cc)
  find-All P (x ∷ xs) {a} h e = elim (Bool-cases (test x)) [
    | inl t ↦ let e' : some x ≡ some a = (rw t at e) in ground (arith, e', h.0)
    | inr f ↦ find-All P xs h.1 (rw f at e)
  ]

  pub any-All : (xs : List A) → any test xs ≡ false → All (λ x. test x ≡ false) xs
  any-All [] e = tt
  any-All (x ∷ xs) e = elim (Bool-cases (test x)) [
    | inl t ↦ absurd (false≢true (sym (rw t at e)))
    | inr f ↦ (f, any-All xs (rw f at e))
  ]

  pub any-find :
      (scan : A → Bool) (xs : List A) {a : A}
      → find scan xs ≡ some a
      → test a ≡ true
      → any test xs ≡ true
  any-find scan [] e t = cc
  any-find scan (x ∷ xs) {a} e t = elim (Bool-cases (scan x)) [
    | inl s ↦ let e' : some x ≡ some a = (rw s at e) in ground (arith, e', t)
    | inr f ↦ ground (arith, any-find scan xs (rw f at e) t)
  ]

  -- A change of the rows that the test does not see.
  pub any-map :
      (f : A → A)
      → ((x : A) → test (f x) ≡ test x)
      → (xs : List A) → any test (map f xs) ≡ any test xs
  any-map f same [] = refl
  any-map f same (x ∷ xs) = rw (same x, any-map f same xs)

  -- A change of the rows that makes no row fail the test.
  pub any-map-true :
      (f : A → A)
      → ((x : A) → test x ≡ true → test (f x) ≡ true)
      → (xs : List A) → any test xs ≡ true
      → any test (map f xs) ≡ true
  any-map-true f keep [] e = e
  any-map-true f keep (x ∷ xs) e = elim (Bool-cases (test x)) [
    | inl t ↦ ground (arith, keep x t)
    | inr g ↦ ground (arith, any-map-true f keep xs (rw g at e))
  ]

  -- The row that a scan finds is changed into one that passes.
  pub any-map-find :
      (scan : A → Bool) (f : A → A)
      → ((x : A) → scan x ≡ true → test (f x) ≡ true)
      → (xs : List A) {a : A} → find scan xs ≡ some a
      → any test (map f xs) ≡ true
  any-map-find scan f pass [] e = cc
  any-map-find scan f pass (x ∷ xs) {a} e = elim (Bool-cases (scan x)) [
    | inl s ↦ ground (arith, pass x s)
    | inr g ↦ ground (arith, any-map-find scan f pass xs (rw g at e))
  ]

  pub any-append_left : (xs ys : List A) → any test xs ≡ true → any test (xs ++ ys) ≡ true
  any-append_left [] ys e = absurd (false≢true e)
  any-append_left (x ∷ xs) ys e = ground (arith, any-append_left xs ys)

module _ {A : Type 0} (key : A → ℕ) where
  -- No two rows have the same key.
  abbrev pub IsKeyed : List A → Type 0
  IsKeyed [] = Unit
  IsKeyed (x ∷ xs) = (any (λ y. key y == key x) xs ≡ false) × IsKeyed xs

  pub map-IsKeyed :
      (f : A → A) → ((x : A) → key (f x) ≡ key x) → (xs : List A) → IsKeyed xs → IsKeyed (map f xs)
  map-IsKeyed f same [] h = tt
  map-IsKeyed f same (x ∷ xs) h = (
    rw (same x)
        (any-map (λ y. key y == key x) f (λ y. ap (λ (k : ℕ). k == key x) (same y)) xs ∙ h.0),
    map-IsKeyed f same xs h.1,
  )

  any-append_new :
      (k : ℕ) (y : A) (xs : List A)
      → any (λ x. key x == k) xs ≡ false
      → (key y == k) ≡ false
      → any (λ x. key x == k) (xs ++ y ∷ []) ≡ false
  any-append_new k y [] e n = ground arith
  any-append_new k y (x ∷ xs) e n = ground (arith, any-append_new k y xs)

  pub append-IsKeyed :
      (y : A) (xs : List A)
      → IsKeyed xs
      → All (λ x. (key x == key y) ≡ false) xs
      → IsKeyed (xs ++ y ∷ [])
  append-IsKeyed y [] h n = (refl, tt)
  append-IsKeyed y (x ∷ xs) h n =
      (any-append_new (key x) y xs h.0 (ground (arith, n.0)), append-IsKeyed y xs h.1 n.1)

  absent :
      (k : ℕ) (a : A) (xs : List A)
      → All (λ y. (key y == k) ≡ false) xs
      → All (λ y. key y ≡ k → y ≡ a) xs
  absent k a = All-weaken _ _ (λ y f e. absurd (ground (arith, f, e)))

  -- The row that a scan by key finds is the only one with that key.
  pub find_unique :
      (k : ℕ) (xs : List A) {a : A}
      → IsKeyed xs
      → find (λ x. key x == k) xs ≡ some a
      → All (λ y. key y ≡ k → y ≡ a) xs
  find_unique k [] h e = tt
  find_unique k (x ∷ xs) {a} h e = elim (Bool-cases (key x == k)) [
    | inl t ↦
        let e' : some x ≡ some a = (rw t at e) in
        let kx : key x ≡ k = ==→eq (key x) k t in
        ((λ _. ground (arith, e')), absent k a xs (rw kx at (any-All (λ y. key y == key x) xs h.0)))
    | inr f ↦ ((λ kx. absurd (ground (arith, f, kx))), find_unique k xs h.1 (rw f at e))
  ]
