-- ===== src/Draft/Rows.antt =====
-- `swapped`: a move of one row is its own inverse, keeps the rows, and touches no other place.
use mathlib.Core.List.{Perm}
use mathlib.Core.List.Perm
use anthonyzng_web.Base.{
  ℕ, zero, suc, ◌<◌, ◌≡◌, refl, ◌≢◌, ◌∙◌, sym, ap, some, inl, inr, arith, List, [], ◌∷◌,
  Option-cases, length, get_elem?, set, length-set,
}
use native.Mathlib.Decide.{ℕ_discrete}
use anthonyzng_web.Draft.{swapped}

module _ {ℓ} {A : Type ℓ} where
  pub get_elem?-some : (xs : List A) (i : ℕ) → i < length xs → (x : A) × (get_elem? xs i ≡ some x)
  get_elem?-some [] i h = absurd (omega arith)
  get_elem?-some (x ∷ xs) zero h = (x, refl)
  get_elem?-some (x ∷ xs) (suc i) h = get_elem?-some xs i (omega arith)

  get_elem?-set_self :
      (xs : List A) (i : ℕ) (v : A) → i < length xs → get_elem? (set xs i v) i ≡ some v
  get_elem?-set_self [] i v h = absurd (omega arith)
  get_elem?-set_self (x ∷ xs) zero v h = refl
  get_elem?-set_self (x ∷ xs) (suc i) v h = get_elem?-set_self xs i v (omega arith)

  get_elem?-set_ne :
      (xs : List A) (i j : ℕ) (v : A) → i ≢ j → get_elem? (set xs i v) j ≡ get_elem? xs j
  get_elem?-set_ne [] i j v h = refl
  get_elem?-set_ne (x ∷ xs) zero zero v h = absurd (h refl)
  get_elem?-set_ne (x ∷ xs) zero (suc j) v h = refl
  get_elem?-set_ne (x ∷ xs) (suc i) zero v h = refl
  get_elem?-set_ne (x ∷ xs) (suc i) (suc j) v h = get_elem?-set_ne xs i j v (λ e. h (ap suc e))

  swapped_eq :
      (xs : List A) (a b : ℕ) {x y : A}
      → get_elem? xs a ≡ some x
      → get_elem? xs b ≡ some y
      → swapped xs a b ≡ set (set xs a y) b x
  unfolding swapped
  swapped_eq xs a b p q = rw (p, swapped, q)

  pub length-swapped : (xs : List A) (a b : ℕ) → length (swapped xs a b) ≡ length xs
  unfolding swapped
  length-swapped xs a b = elim (Option-cases (get_elem? xs a)) [
    | inl e ↦ rw (e, swapped)
    | inr (x, e) ↦ elim (Option-cases (get_elem? xs b)) [
      | inl f ↦ rw (e, swapped, f)
      | inr (y, f) ↦ rw (e, swapped, f) (length-set (set xs a y) b x ∙ length-set xs a y)
    ]
  ]

  perm_exchange :
      (r : List A) (i : ℕ) (x : A) {y : A} → get_elem? r i ≡ some y → Perm (y ∷ set r i x) (x ∷ r)
  perm_exchange [] i x e = absurd (cc)
  perm_exchange (z ∷ r) zero x {y} e = let same : z ≡ y = cc in rw (← same) (Perm.swap x z r)
  perm_exchange (z ∷ r) (suc i) x {y} e =
      Perm.trans (Perm.swap z y (set r i x))
        (Perm.trans (Perm.cons z (perm_exchange r i x e)) (Perm.swap x z r))

  perm_set_set :
      (xs : List A) (a b : ℕ) {x y : A}
      → get_elem? xs a ≡ some x
      → get_elem? xs b ≡ some y
      → Perm (set (set xs a y) b x) xs
  perm_set_set [] a b p q = absurd (cc)
  perm_set_set (z ∷ r) zero zero {x} p q = let same : z ≡ x = cc in rw (← same) (Perm.refl (z ∷ r))
  perm_set_set (z ∷ r) zero (suc b) {x} p q =
      let same : z ≡ x = cc in rw same (perm_exchange r b x q)
  perm_set_set (z ∷ r) (suc a) zero {x} {y} p q =
      let same : z ≡ y = cc in rw same (perm_exchange r a y p)
  perm_set_set (z ∷ r) (suc a) (suc b) p q = Perm.cons z (perm_set_set r a b p q)

  -- A move loses and duplicates no row.
  pub swapped-perm : (xs : List A) (a b : ℕ) → Perm (swapped xs a b) xs
  unfolding swapped
  swapped-perm xs a b = elim (Option-cases (get_elem? xs a)) [
    | inl e ↦ rw (e, swapped) (Perm.refl xs)
    | inr (x, e) ↦ elim (Option-cases (get_elem? xs b)) [
      | inl f ↦ rw (e, swapped, f) (Perm.refl xs)
      | inr (y, f) ↦ rw (e, swapped, f) (perm_set_set xs a b e f)
    ]
  ]

  list_ext :
      (xs ys : List A)
      → length xs ≡ length ys
      → ((i : ℕ) → get_elem? xs i ≡ get_elem? ys i)
      → xs ≡ ys
  list_ext [] [] n h = refl
  list_ext [] (y ∷ ys) n h = absurd (omega arith)
  list_ext (x ∷ xs) [] n h = absurd (omega arith)
  list_ext (x ∷ xs) (y ∷ ys) n h =
      let here : x ≡ y = (let e : some x ≡ some y = h 0 in cc) in
      let later : xs ≡ ys = list_ext xs ys (omega arith) (λ i. h (suc i)) in cc

  module _ (xs : List A) (a b : ℕ) (la : a < length xs) (lb : b < length xs) where
    -- Each of the two places holds what the other held.
    pub get_elem?-swapped_left : get_elem? (swapped xs a b) a ≡ get_elem? xs b
    get_elem?-swapped_left =
        let (x, e) = get_elem?-some xs a la in
        let (y, f) = get_elem?-some xs b lb in
        elim (ℕ_discrete b a) [
          | yes same ↦
              rw (swapped_eq xs a b e f, same)
                (get_elem?-set_self (set xs a y) a x (omega (arith, length-set xs a y)) ∙ sym e)
          | no n ↦
              rw (swapped_eq xs a b e f)
                (get_elem?-set_ne (set xs a y) b a x n ∙ get_elem?-set_self xs a y la ∙ sym f)
        ]

    pub get_elem?-swapped_right : get_elem? (swapped xs a b) b ≡ get_elem? xs a
    get_elem?-swapped_right =
        let (x, e) = get_elem?-some xs a la in
        let (y, f) = get_elem?-some xs b lb in
        rw (swapped_eq xs a b e f)
          (get_elem?-set_self (set xs a y) b x (omega (arith, length-set xs a y)) ∙ sym e)

    -- Every other place is as it was.
    pub get_elem?-swapped_ne :
        (k : ℕ) → a ≢ k → b ≢ k → get_elem? (swapped xs a b) k ≡ get_elem? xs k
    get_elem?-swapped_ne k n m =
        let (x, e) = get_elem?-some xs a la in
        let (y, f) = get_elem?-some xs b lb in
        rw (swapped_eq xs a b e f)
          (get_elem?-set_ne (set xs a y) b k x m ∙ get_elem?-set_ne xs a k y n)

  -- Moving a row to another place of the list and back restores the list.
  pub swapped-swapped :
      (xs : List A) (a b : ℕ) → a < length xs → b < length xs → swapped (swapped xs a b) a b ≡ xs
  swapped-swapped xs a b la lb =
      list_ext _ xs (length-swapped (swapped xs a b) a b ∙ length-swapped xs a b) (λ k.
        elim (ℕ_discrete a k) [
          | yes p ↦ rw (← p) (
              get_elem?-swapped_left (swapped xs a b) a b la' lb'
              ∙ get_elem?-swapped_right xs a b la lb)
          | no n ↦ elim (ℕ_discrete b k) [
            | yes q ↦ rw (← q) (
                get_elem?-swapped_right (swapped xs a b) a b la' lb'
                ∙ get_elem?-swapped_left xs a b la lb)
            | no m ↦
                get_elem?-swapped_ne (swapped xs a b) a b la' lb' k n m
                ∙ get_elem?-swapped_ne xs a b la lb k n m
          ]
        ])
    where
      la' : a < length (swapped xs a b)
      la' = omega (arith, length-swapped xs a b)

      lb' : b < length (swapped xs a b)
      lb' = omega (arith, length-swapped xs a b)
