-- ===== src/Base/Text/Digits.antt =====
-- `String(n)` and its reading back: decimal numerals.
use anthonyzng_web.Base.{
  sym, and_split, ◌≤◌, ℕ, zero, suc, ◌+◌, ◌/◌, ◌%◌, ◌<◌, ◌≡◌, refl, ap, ◌∙◌, inl, inr, arith, true,
  [], ◌∷◌, all, ltb, Bool-cases, and_intro,
}
use anthonyzng_web.Base.Text.{dot, Text, digits_from, digits_value, show_nat, is_digit}
use anthonyzng_web.Base.Text.Laws.{NoDot}

digits_value-digits_from :
    (fuel n : ℕ) (s : Text) → n < fuel → digits_value 0 (digits_from fuel n s) ≡ digits_value n s
unfolding digits_value digits_from
digits_value-digits_from zero n s h = absurd (omega arith)
digits_value-digits_from (suc fuel) n s h = elim (Bool-cases (ltb n 10)) [
  | inl t ↦ rw t (ap (λ k. digits_value k s) (omega arith))
  | inr t ↦
      let big : 10 ≤ n = ground arith in
      rw t (
        digits_value-digits_from fuel (n / 10) ((b'0' + n % 10) ∷ s) (omega arith)
        ∙ ap (λ k. digits_value k s) (omega arith))
]

-- A number is read back from its digits.
pub digits_value-show_nat : (n : ℕ) → digits_value 0 (show_nat n) ≡ n
unfolding show_nat digits_value
digits_value-show_nat n = digits_value-digits_from (suc n) n [] (omega arith)

digits_from-digits :
    (fuel n : ℕ) (s : Text)
    → n < fuel
    → all is_digit s ≡ true
    → all is_digit (digits_from fuel n s) ≡ true
unfolding digits_from
digits_from-digits zero n s h d = absurd (omega arith)
digits_from-digits (suc fuel) n s h d = elim (Bool-cases (ltb n 10)) [
  | inl t ↦ rw t (and_intro (ground arith) d)
  | inr t ↦
      let big : 10 ≤ n = ground arith in
      rw t (
        digits_from-digits fuel (n / 10) ((b'0' + n % 10) ∷ s) (omega arith)
          (and_intro (ground arith) d))
]

pub show_nat-digits : (n : ℕ) → all is_digit (show_nat n) ≡ true
unfolding show_nat
show_nat-digits n = digits_from-digits (suc n) n [] (omega arith) refl

all_digits-NoDot : (s : Text) → all is_digit s ≡ true → NoDot s
all_digits-NoDot [] h = tt
all_digits-NoDot (c ∷ s) h =
    let (d, more) = and_split (is_digit c) (all is_digit s) h in
    ((λ e. let bad : is_digit dot ≡ true = ap is_digit (sym e) ∙ d in cc), all_digits-NoDot s more)

pub show_nat-NoDot : (n : ℕ) → NoDot (show_nat n)
show_nat-NoDot n = all_digits-NoDot (show_nat n) (show_nat-digits n)
