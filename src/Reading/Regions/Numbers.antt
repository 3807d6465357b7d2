-- ===== src/Reading/Regions/Numbers.antt =====
-- The numbers of the sections.
use anthonyzng_web.Base.{ℕ, ◌+◌, ◌≤◌, ◌≡◌, refl, ◌∙◌, [], ◌∷◌, length, arith}
use anthonyzng_web.Base.Text.{Text, show_nat, digits_value}
use anthonyzng_web.Base.Text.Digits.{digits_value-show_nat}
use anthonyzng_web.Reading.Regions.{format_index, pad_two}

pad_two-value : (s : Text) → digits_value 0 (pad_two s) ≡ digits_value 0 s
unfolding digits_value
pad_two-value [] = refl
pad_two-value (c ∷ []) = refl
pad_two-value (c ∷ d ∷ s) = refl

pad_two-length : (s : Text) → 2 ≤ length (pad_two s)
pad_two-length [] = omega arith
pad_two-length (c ∷ []) = omega arith
pad_two-length (c ∷ d ∷ s) = omega arith

-- The number of a section has two digits or more, and reads as the place after its index.
pub format_index-value :
    (index : ℕ)
    → (digits_value 0 (format_index index) ≡ index + 1) × (2 ≤ length (format_index index))
unfolding format_index
format_index-value index = (
  pad_two-value (show_nat (index + 1)) ∙ digits_value-show_nat (index + 1),
  pad_two-length (show_nat (index + 1)),
)
