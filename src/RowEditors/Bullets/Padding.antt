-- ===== src/RowEditors/Bullets/Padding.antt =====
-- The padding of the two lists of bullets, and a row taken out of both.
use anthonyzng_web.Base.{◌≡◌, refl, ap, ℕ, zero, suc, List, [], ◌∷◌, length, erase_idx, arith}
use anthonyzng_web.Base.Text.{Text}
use anthonyzng_web.Draft.{strings_json, strings_of}
use anthonyzng_web.RowEditors.Bullets.{pad_to}

pub strings_of-strings_json : (xs : List Text) → strings_of (strings_json xs) ≡ xs
strings_of-strings_json [] = refl
strings_of-strings_json (x ∷ xs) = ap (λ r. x ∷ r) (strings_of-strings_json xs)

pub length-pad_to : (n : ℕ) (xs : List Text) → length (pad_to n xs) ≡ n
unfolding pad_to
length-pad_to zero xs = refl
length-pad_to (suc n) [] = ap suc (length-pad_to n [])
length-pad_to (suc n) (x ∷ xs) = ap suc (length-pad_to n xs)

pub pad_to-length : (xs : List Text) → pad_to (length xs) xs ≡ xs
unfolding pad_to
pad_to-length [] = refl
pad_to-length (x ∷ xs) = ap (λ r. x ∷ r) (pad_to-length xs)

pub length-erased :
    (xs ys : List Text) (i : ℕ)
    → length xs ≡ length ys
    → length (erase_idx xs i) ≡ length (erase_idx ys i)
length-erased [] [] i h = refl
length-erased [] (y ∷ ys) i h = absurd (omega arith)
length-erased (x ∷ xs) [] i h = absurd (omega arith)
length-erased (x ∷ xs) (y ∷ ys) zero h = omega arith
length-erased (x ∷ xs) (y ∷ ys) (suc i) h = ap suc (length-erased xs ys i (omega arith))
