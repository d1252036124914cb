-- ===== src/Identity/Masking.antt =====
-- `mask_identifier`, on texts as lists of code points.
use escrow_fx_marketplace.Common.{
  ℕ, zero, suc, ◌+◌, ◌-◌, ◌≤◌, ◌≡◌, refl, List, [], ◌∷◌, ◌++◌, length, take, drop, leb,
  if◌then◌else◌, arith,
}

-- `"*" * n`
abbrev pub stars : ℕ → List ℕ
stars zero = []
stars (suc n) = 42 ∷ stars n

-- `text[:2]` and `text[-4:]`
abbrev pub masked : List ℕ → List ℕ
masked text = take 2 text ++ (stars (length text - 6) ++ drop (length text - 4) text)

-- `mask_identifier`, of a stripped identifier.
unfoldable pub mask_identifier : List ℕ → List ℕ
mask_identifier text = if leb (length text) 4 then stars (length text) else masked text

length-append : (xs ys : List ℕ) → length (xs ++ ys) ≡ length xs + length ys
length-append [] ys = omega arith
length-append (x ∷ xs) ys = omega (arith, length-append xs ys)

length-stars : (n : ℕ) → length (stars n) ≡ n
length-stars zero = refl
length-stars (suc n) = omega (arith, length-stars n)

length-drop : (n : ℕ) (xs : List ℕ) → length (drop n xs) ≡ length xs - n
length-drop zero xs = omega arith
length-drop (suc n) [] = omega arith
length-drop (suc n) (x ∷ xs) = omega (arith, length-drop n xs)

length-take_two : (xs : List ℕ) → 2 ≤ length xs → length (take 2 xs) ≡ 2
length-take_two [] h = omega (arith, h)
length-take_two (x ∷ []) h = omega (arith, h)
length-take_two (x ∷ y ∷ xs) h = refl

halves : (xs : List ℕ) → take 2 xs ++ drop 2 xs ≡ xs
halves [] = refl
halves (x ∷ []) = refl
halves (x ∷ y ∷ xs) = refl

-- An identifier of at least six characters, which is what the API takes, has a mask of its own
-- length; and the mask of one of six characters is that identifier, with nothing hidden.
pub mask_identifier_lem :
    (text : List ℕ)
    → 6 ≤ length text
    → (length (mask_identifier text) ≡ length text)
      × (length text ≡ 6 → mask_identifier text ≡ text)
unfolding mask_identifier
mask_identifier_lem text h = (
  ground (
    arith,
    length-append (take 2 text) (stars (length text - 6) ++ drop (length text - 4) text),
    length-append (stars (length text - 6)) (drop (length text - 4) text),
    length-stars (length text - 6),
    length-drop (length text - 4) text,
    length-take_two text,
  ),
  λ e. rw e (halves text),
)
