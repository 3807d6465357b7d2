-- ===== src/RowEditors/Pairs.antt =====
-- Two lists of equal length as one list of pairs, under the edits of the row editors.
use anthonyzng_web.Base.{
  ℕ, zero, suc, ◌≡◌, refl, ap, ◌∙◌, ◌⊎◌, inl, inr, arith, none, some, List, [], ◌∷◌, ◌++◌, length,
  get_elem?, set, erase_idx,
}
use anthonyzng_web.Draft.{swapped}

module _ {ℓ} {A : Type ℓ} where
  abbrev pub zip : List A → List A → List (A × A)
  zip [] ys = []
  zip (x ∷ xs) [] = []
  zip (x ∷ xs) (y ∷ ys) = (x, y) ∷ zip xs ys

  pub zip-append :
      (xs ys us vs : List A)
      → length xs ≡ length ys
      → zip (xs ++ us) (ys ++ vs) ≡ zip xs ys ++ zip us vs
  zip-append [] [] us vs h = refl
  zip-append [] (y ∷ ys) us vs h = absurd (omega arith)
  zip-append (x ∷ xs) [] us vs h = absurd (omega arith)
  zip-append (x ∷ xs) (y ∷ ys) us vs h = ap (λ r. (x, y) ∷ r) (zip-append xs ys us vs (omega arith))

  pub zip-erase_idx :
      (xs ys : List A) (i : ℕ)
      → length xs ≡ length ys
      → zip (erase_idx xs i) (erase_idx ys i) ≡ erase_idx (zip xs ys) i
  zip-erase_idx [] [] i h = refl
  zip-erase_idx [] (y ∷ ys) i h = absurd (omega arith)
  zip-erase_idx (x ∷ xs) [] i h = absurd (omega arith)
  zip-erase_idx (x ∷ xs) (y ∷ ys) zero h = refl
  zip-erase_idx (x ∷ xs) (y ∷ ys) (suc i) h =
      ap (λ r. (x, y) ∷ r) (zip-erase_idx xs ys i (omega arith))

  pub zip-set :
      (xs ys : List A) (i : ℕ) (a b : A) → zip (set xs i a) (set ys i b) ≡ set (zip xs ys) i (a, b)
  zip-set [] ys i a b = refl
  zip-set (x ∷ xs) [] zero a b = refl
  zip-set (x ∷ xs) [] (suc i) a b = refl
  zip-set (x ∷ xs) (y ∷ ys) zero a b = refl
  zip-set (x ∷ xs) (y ∷ ys) (suc i) a b = ap (λ r. (x, y) ∷ r) (zip-set xs ys i a b)

  pub length-zip : (xs ys : List A) → length xs ≡ length ys → length (zip xs ys) ≡ length xs
  length-zip [] ys h = refl
  length-zip (x ∷ xs) [] h = absurd (omega arith)
  length-zip (x ∷ xs) (y ∷ ys) h = ap suc (length-zip xs ys (omega arith))

  pub get_elem?-zip :
      (xs ys : List A) (i : ℕ)
      → length xs ≡ length ys
      → (get_elem? xs i ≡ none) × (get_elem? ys i ≡ none) × (get_elem? (zip xs ys) i ≡ none)
        ⊎ ((a : A) × (b : A) × (get_elem? xs i ≡ some a)
            × (get_elem? ys i ≡ some b)
            × (get_elem? (zip xs ys) i ≡ some (a, b)))
  get_elem?-zip [] [] i h = inl (refl, refl, refl)
  get_elem?-zip [] (y ∷ ys) i h = absurd (omega arith)
  get_elem?-zip (x ∷ xs) [] i h = absurd (omega arith)
  get_elem?-zip (x ∷ xs) (y ∷ ys) zero h = inr (x, y, refl, refl, refl)
  get_elem?-zip (x ∷ xs) (y ∷ ys) (suc i) h = get_elem?-zip xs ys i (omega arith)

  -- Moving a row of both lists is moving the pair.
  pub zip-swapped :
      (xs ys : List A) (i j : ℕ)
      → length xs ≡ length ys
      → zip (swapped xs i j) (swapped ys i j) ≡ swapped (zip xs ys) i j
  unfolding swapped
  zip-swapped xs ys i j h = elim (get_elem?-zip xs ys i h) [
    | inl (p, q, r) ↦ rw (p, swapped, q, r) refl
    | inr (a, b, p, q, r) ↦ elim (get_elem?-zip xs ys j h) [
      | inl (p', q', r') ↦ rw (p, swapped, q, r, p', q', r') refl
      | inr (a', b', p', q', r') ↦
          rw (p, swapped, q, r, p', q', r')
            (zip-set (set xs i a') (set ys i b') j a b
              ∙ ap (λ l. set l j (a, b)) (zip-set xs ys i a' b'))
    ]
  ]
