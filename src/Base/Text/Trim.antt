-- ===== src/Base/Text/Trim.antt =====
-- `trim` leaves nothing to trim, and the length by code points is bounded by that by units.
use mathlib.Core.List.{reverse-append, reverse-reverse}
use anthonyzng_web.Base.{
  ◌+◌, ◌*◌, ◌≤◌, ◌≡◌, refl, sym, ap, ◌∙◌, Bool, false, [], ◌∷◌, ◌++◌, reverse, arith, length,
  length-reverse, Bool-cases, inl, inr, if◌then◌else◌,
}
use anthonyzng_web.Base.Text.{Text, is_space, drop_spaces, trim, points_from, is_high, is_low}

abbrev Starts : Text → Type 0
Starts [] = Unit
Starts (c ∷ _) = is_space c ≡ false

drop_spaces-Starts : (s : Text) → Starts (drop_spaces s)
unfolding drop_spaces
drop_spaces-Starts [] = tt
drop_spaces-Starts (c ∷ s) = elim (Bool-cases (is_space c)) [
  | inl e ↦ rw e (drop_spaces-Starts s)
  | inr e ↦ rw e e
]

drop_spaces_of_Starts : (s : Text) → Starts s → drop_spaces s ≡ s
unfolding drop_spaces
drop_spaces_of_Starts [] h = refl
drop_spaces_of_Starts (c ∷ s) h = rw h

Starts-left : (s t : Text) → Starts (s ++ t) → Starts s
Starts-left [] t h = tt
Starts-left (c ∷ s) t h = h

drop_spaces_suffix : (s : Text) → (p : Text) × (s ≡ p ++ drop_spaces s)
unfolding drop_spaces
drop_spaces_suffix [] = ([], refl)
drop_spaces_suffix (c ∷ s) = elim (Bool-cases (is_space c)) [
  | inl e ↦ let (p, q) = drop_spaces_suffix s in (c ∷ p, rw e (ap (c ∷◌) q))
  | inr e ↦ ([], rw e)
]

-- What is left after both ends are stripped starts with no white space, on either side.
trim_ends : (s : Text) → Starts (trim s) × Starts (reverse (trim s))
unfolding trim
trim_ends s =
    let a = drop_spaces s in
    let d = drop_spaces (reverse a) in
    let (p, e) = drop_spaces_suffix (reverse a) in
    let back : a ≡ reverse d ++ reverse p =
      sym (reverse-reverse a) ∙ ap reverse e ∙ reverse-append p d in
    (
      Starts-left (reverse d) (reverse p) (rw back at (drop_spaces-Starts s)),
      rw reverse-reverse (drop_spaces-Starts (reverse a)),
    )

-- Trimming twice is trimming once.
pub trim_idempotent : (s : Text) → trim (trim s) ≡ trim s
trim_idempotent s =
    let (front, back) = trim_ends s in
    unfold trim in
    rw (drop_spaces_of_Starts _ front, drop_spaces_of_Starts _ back) (reverse-reverse _)

length-drop_spaces : (s : Text) → length (drop_spaces s) ≤ length s
unfolding drop_spaces
length-drop_spaces [] = omega arith
length-drop_spaces (c ∷ s) = ground (arith, length-drop_spaces s)

pub length-trim : (s : Text) → length (trim s) ≤ length s
unfolding trim
length-trim s = omega (
  arith,
  length-reverse (drop_spaces (reverse (drop_spaces s))),
  length-drop_spaces (reverse (drop_spaces s)),
  length-reverse (drop_spaces s),
  length-drop_spaces s,
)

points_from-le-length : (high : Bool) (s : Text) → points_from high s ≤ length s
unfolding points_from
points_from-le-length high [] = omega arith
points_from-le-length high (u ∷ s) = ground (arith, points_from-le-length (is_high u) s)

-- A pair of code units makes at most one code point fewer.
length-le-points_from :
    (high : Bool) (s : Text) → length s ≤ (if high then 1 else 0) + 2 * points_from high s
unfolding points_from is_high is_low
length-le-points_from high [] = ground arith
length-le-points_from high (u ∷ s) = ground (arith, length-le-points_from (is_high u) s)
