-- ===== src/Slug/Stable.antt =====
-- A suggestion suggests itself: the editor compares a restored slug with its suggestion.
use mathlib.Core.List.{reverse-reverse}
use mathlib.Core.Path.{◌≡⟨◌⟩◌, ◌∎}
use anthonyzng_web.Base.{
  ℕ, zero, suc, ◌≤◌, ◌≡◌, refl, sym, ap, ◌⊎◌, inl, inr, Bool, true, false, [], ◌∷◌, ◌++◌, reverse,
  arith, ◌==◌, length, take, Bool-cases, All,
}
use anthonyzng_web.Base.Text.{Text}
use anthonyzng_web.Slug.{
  dash, is_lower, is_word, hyphenate, from_letter, drop_dashes, strip_end, slugify,
}
use anthonyzng_web.Slug.Shape.{
  IsPlain, Lettered, clipped, slugify_prefix, slugify_eq, slugify-Lettered, length-slugify,
  slugify-IsPlain,
}

-- Hyphens stand alone; `run` says that one came just before.
abbrev Single : Bool → Text → Type 0
Single run [] = Unit
Single run (c ∷ s) =
    (is_word c ≡ true) × Single false s ⊎ (run ≡ false) × (c ≡ dash) × Single true s

hyphenate-Single : (run : Bool) (s : Text) → Single run (hyphenate run s)
unfolding hyphenate
hyphenate-Single run [] = tt
hyphenate-Single true (c ∷ s) = elim (Bool-cases (is_word c)) [
  | inl e ↦ rw e (inl (e, hyphenate-Single false s))
  | inr e ↦ rw e (hyphenate-Single true s)
]
hyphenate-Single false (c ∷ s) = elim (Bool-cases (is_word c)) [
  | inl e ↦ rw e (inl (e, hyphenate-Single false s))
  | inr e ↦ rw e (inr (refl, refl, hyphenate-Single true s))
]

hyphenate_of_Single : (run : Bool) (s : Text) → Single run s → hyphenate run s ≡ s
unfolding hyphenate
hyphenate_of_Single run [] h = refl
hyphenate_of_Single run (c ∷ s) (inl (w, h)) = rw w (ap (c ∷◌) (hyphenate_of_Single false s h))
hyphenate_of_Single run (c ∷ s) (inr (r, d, h)) =
    rw (r, d) (ap (dash ∷◌) (hyphenate_of_Single true s h))

Single-weaken : (run : Bool) (s : Text) → Single run s → Single false s
Single-weaken run [] h = tt
Single-weaken run (c ∷ s) (inl h) = inl h
Single-weaken run (c ∷ s) (inr (_, d, h)) = inr (refl, d, h)

from_letter-Single : (run : Bool) (s : Text) → Single run s → Single false (from_letter s)
unfolding from_letter
from_letter-Single run [] h = tt
from_letter-Single run (c ∷ s) (inl (w, h)) = elim (Bool-cases (is_lower c)) [
  | inl e ↦ rw e (inl (w, h))
  | inr e ↦ rw e (from_letter-Single false s h)
]
from_letter-Single run (c ∷ s) (inr (_, d, h)) = elim (Bool-cases (is_lower c)) [
  | inl e ↦ rw e (inr (refl, d, h))
  | inr e ↦ rw e (from_letter-Single true s h)
]

from_letter_of_Lettered : (s : Text) → Lettered s → from_letter s ≡ s
unfolding from_letter
from_letter_of_Lettered [] h = refl
from_letter_of_Lettered (c ∷ s) h = rw h

take_all : (n : ℕ) (s : Text) → length s ≤ n → take n s ≡ s
take_all zero [] h = refl
take_all zero (c ∷ s) h = absurd (omega arith)
take_all (suc n) [] h = refl
take_all (suc n) (c ∷ s) h = ap (c ∷◌) (take_all n s (omega arith))

Single-left : (run : Bool) (s t : Text) → Single run (s ++ t) → Single run s
Single-left run [] t h = tt
Single-left run (c ∷ s) t (inl (w, h)) = inl (w, Single-left false s t h)
Single-left run (c ∷ s) t (inr (r, d, h)) = inr (r, d, Single-left true s t h)

take-prefix : (n : ℕ) (s : Text) → (r : Text) × (s ≡ take n s ++ r)
take-prefix zero s = (s, refl)
take-prefix (suc n) [] = ([], refl)
take-prefix (suc n) (c ∷ s) = let (r, e) = take-prefix n s in (r, ap (c ∷◌) e)

drop_dashes_twice : (s : Text) → drop_dashes (drop_dashes s) ≡ drop_dashes s
unfolding drop_dashes
drop_dashes_twice [] = refl
drop_dashes_twice (c ∷ s) = elim (Bool-cases (c == dash)) [
  | inl e ↦ rw e (drop_dashes_twice s)
  | inr e ↦ rw e (rw e refl)
]

strip_end_twice : (s : Text) → strip_end (strip_end s) ≡ strip_end s
unfolding strip_end
strip_end_twice s = rw reverse-reverse (ap reverse (drop_dashes_twice (reverse s)))

slugify-Single : (fold : Text → Text) (text : Text) → Single false (slugify fold text)
slugify-Single fold text =
    let long = from_letter (hyphenate false (fold text)) in
    let (r, e) = take-prefix 64 long in
    let (q, f) = slugify_prefix fold text in
    let clear : Single false long =
      from_letter-Single false _ (hyphenate-Single false (fold text)) in
    Single-left false (slugify fold text) q
      (rw f at (Single-left false (take 64 long) r (rw e at clear)))

-- Where folding leaves plain text (lower case, digits and dashes) alone, a suggestion is its own
-- suggestion.
pub slugify_idempotent :
    (fold : Text → Text)
    → ((s : Text) → All IsPlain s → fold s ≡ s)
    → (text : Text) → slugify fold (slugify fold text) ≡ slugify fold text
slugify_idempotent fold plain text =
    let u = slugify fold text in
    slugify fold u
    ≡⟨ slugify_eq fold u ⟩ strip_end (clipped fold u)
    ≡⟨ ap (λ (s : Text). strip_end (take 64 (from_letter (hyphenate false s))))
        (plain u (slugify-IsPlain fold text)) ⟩
      strip_end (take 64 (from_letter (hyphenate false u)))
    ≡⟨ ap (λ (s : Text). strip_end (take 64 (from_letter s)))
        (hyphenate_of_Single false u (slugify-Single fold text)) ⟩
      strip_end (take 64 (from_letter u))
    ≡⟨ ap (λ (s : Text). strip_end (take 64 s))
        (from_letter_of_Lettered u (slugify-Lettered fold text)) ⟩
      strip_end (take 64 u)
    ≡⟨ ap strip_end (take_all 64 u (length-slugify fold text)) ⟩ strip_end u
    ≡⟨ ap strip_end (slugify_eq fold text) ⟩ strip_end (strip_end (clipped fold text))
    ≡⟨ strip_end_twice (clipped fold text) ⟩ strip_end (clipped fold text)
    ≡⟨ sym (slugify_eq fold text) ⟩ u ∎
