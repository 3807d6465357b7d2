-- ===== src/Slug/Shape.antt =====
-- Every suggestion is a valid slug, or empty.
use mathlib.Core.List.{reverse-append, reverse-reverse}
use anthonyzng_web.Base.{
  ℕ, suc, ◌≤◌, ◌≡◌, refl, sym, ap, ◌∙◌, ◌⊎◌, inl, inr, Bool, true, false, [], ◌∷◌, ◌++◌, reverse,
  arith, ◌==◌, length, take, all, Bool-cases, All, All-left, All-take, length-take-le,
  length-append,
}
use anthonyzng_web.Base.Text.{Text}
use anthonyzng_web.Slug.{
  dash, is_lower, is_word, is_slug_char, is_slug, hyphenate, from_letter, drop_dashes, strip_end,
  slugify,
}

-- What `hyphenate` leaves: lower-case letters, digits and hyphens.
abbrev pub IsPlain : ℕ → Type 0
IsPlain c = (is_word c ≡ true) ⊎ (c ≡ dash)

pub hyphenate-IsPlain : (run : Bool) (s : Text) → All IsPlain (hyphenate run s)
unfolding hyphenate
hyphenate-IsPlain run [] = tt
hyphenate-IsPlain true (c ∷ s) = elim (Bool-cases (is_word c)) [
  | inl e ↦ rw e (inl e, hyphenate-IsPlain false s)
  | inr e ↦ rw e (hyphenate-IsPlain true s)
]
hyphenate-IsPlain false (c ∷ s) = elim (Bool-cases (is_word c)) [
  | inl e ↦ rw e (inl e, hyphenate-IsPlain false s)
  | inr e ↦ rw e (inr refl, hyphenate-IsPlain true s)
]

pub from_letter-IsPlain : (s : Text) → All IsPlain s → All IsPlain (from_letter s)
unfolding from_letter
from_letter-IsPlain [] h = tt
from_letter-IsPlain (c ∷ s) (p, h) = elim (Bool-cases (is_lower c)) [
  | inl e ↦ rw e (p, h)
  | inr e ↦ rw e (from_letter-IsPlain s h)
]

-- A text that is empty or begins with a letter.
abbrev pub Lettered : Text → Type 0
Lettered [] = Unit
Lettered (c ∷ _) = is_lower c ≡ true

pub from_letter-Lettered : (s : Text) → Lettered (from_letter s)
unfolding from_letter
from_letter-Lettered [] = tt
from_letter-Lettered (c ∷ s) = elim (Bool-cases (is_lower c)) [
  | inl e ↦ rw e e
  | inr e ↦ rw e (from_letter-Lettered s)
]

take-Lettered : (n : ℕ) (s : Text) → Lettered s → Lettered (take n s)
take-Lettered ℕ.zero s h = tt
take-Lettered (suc n) [] h = tt
take-Lettered (suc n) (c ∷ s) h = h

drop_dashes_suffix : (s : Text) → (p : Text) × (s ≡ p ++ drop_dashes s)
unfolding drop_dashes
drop_dashes_suffix [] = ([], refl)
drop_dashes_suffix (c ∷ s) = elim (Bool-cases (c == dash)) [
  | inl e ↦ let (p, q) = drop_dashes_suffix s in (c ∷ p, rw e (ap (c ∷◌) q))
  | inr e ↦ ([], rw e)
]

-- Stripping the end keeps a front part.
pub strip_end_prefix : (s : Text) → (r : Text) × (s ≡ strip_end s ++ r)
unfolding strip_end
strip_end_prefix s =
    let (p, e) = drop_dashes_suffix (reverse s) in
    (reverse p, sym (reverse-reverse s) ∙ ap reverse e ∙ reverse-append p (drop_dashes (reverse s)))

Lettered-left : (s t : Text) → Lettered (s ++ t) → Lettered s
Lettered-left [] t h = tt
Lettered-left (c ∷ s) t h = h

all-slug_char : (s : Text) → All IsPlain s → all is_slug_char s ≡ true
all-slug_char [] h = refl
all-slug_char (c ∷ s) (inl p, h) = ground (arith, all-slug_char s h)
all-slug_char (c ∷ s) (inr p, h) = rw p (all-slug_char s h)

is_slug_of : (s : Text) → Lettered s → All IsPlain s → length s ≤ 64 → (s ≡ []) ⊎ (is_slug s ≡ true)
unfolding is_slug
is_slug_of [] l h n = inl refl
is_slug_of (c ∷ s) l (_, h) n = inr (ground (arith, all-slug_char s h))

-- Before the end is stripped: the first 64 characters from the first letter on.
abbrev pub clipped : (Text → Text) → Text → Text
clipped fold text = take 64 (from_letter (hyphenate false (fold text)))

pub clipped-IsPlain : (fold : Text → Text) (text : Text) → All IsPlain (clipped fold text)
clipped-IsPlain fold text =
    All-take IsPlain 64 _ (from_letter-IsPlain _ (hyphenate-IsPlain false (fold text)))

module _ (fold : Text → Text) (text : Text) where
  pub slugify_eq : slugify fold text ≡ strip_end (clipped fold text)
  unfolding slugify
  slugify_eq = refl

  pub slugify_prefix : (r : Text) × (clipped fold text ≡ slugify fold text ++ r)
  unfolding slugify
  slugify_prefix = strip_end_prefix (clipped fold text)

  pub slugify-Lettered : Lettered (slugify fold text)
  slugify-Lettered =
      let (r, e) = slugify_prefix in
      Lettered-left (slugify fold text) r
        (rw e at (take-Lettered 64 _ (from_letter-Lettered (hyphenate false (fold text)))))

  pub slugify-IsPlain : All IsPlain (slugify fold text)
  slugify-IsPlain =
      let (r, e) = slugify_prefix in
      All-left IsPlain (slugify fold text) r (rw e at (clipped-IsPlain fold text))

  pub length-slugify : length (slugify fold text) ≤ 64
  length-slugify =
      let (r, e) = slugify_prefix in
      omega (
        arith,
        ap length e,
        length-append (slugify fold text) r,
        length-take-le 64 (from_letter (hyphenate false (fold text))),
      )

-- Whatever the Unicode folding gives, the suggestion is empty or has the form of a slug.
pub slugify-is_slug :
    (fold : Text → Text) (text : Text)
    → (slugify fold text ≡ []) ⊎ (is_slug (slugify fold text) ≡ true)
slugify-is_slug fold text =
    is_slug_of (slugify fold text) (slugify-Lettered fold text) (slugify-IsPlain fold text)
      (length-slugify fold text)
