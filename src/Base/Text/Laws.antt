-- ===== src/Base/Text/Laws.antt =====
-- Laws of string equality, prefixes, splitting at dots and decimal numerals.
use anthonyzng_web.Base.{
  sym, ℕ, ◌≡◌, refl, ap, ◌∙◌, ◌↔◌, ◌≢◌, true, false, List, [], ◌∷◌, ◌++◌, arith, ◌==◌, Bool-cases,
  ◌⊎◌, inl, inr, ==_iff, All, and_split,
}
use anthonyzng_web.Base.Text.{Text, text_eq, starts_with, dot, push_head, split_dot, join_dot}

text_eq→eq : (s t : Text) → text_eq s t ≡ true → s ≡ t
unfolding text_eq
text_eq→eq [] [] h = refl
text_eq→eq [] (_ ∷ _) h = absurd (cc)
text_eq→eq (_ ∷ _) [] h = absurd (cc)
text_eq→eq (a ∷ s) (b ∷ t) h =
    let (p, q) = and_split _ _ h in
    (let p' : a ≡ b = (==_iff a b).0 p in let q' : s ≡ t = text_eq→eq s t q in cc)

pub text_eq_refl : (s : Text) → text_eq s s ≡ true
unfolding text_eq
text_eq_refl [] = refl
text_eq_refl (a ∷ s) = ground (arith, text_eq_refl s)

pub text_eq_iff : (s t : Text) → (text_eq s t ≡ true) ↔ (s ≡ t)
text_eq_iff s t = (text_eq→eq s t, λ e. rw e (text_eq_refl t))

pub text_eq-cases :
    (s t : Text) → ((s ≡ t) × (text_eq s t ≡ true)) ⊎ ((s ≢ t) × (text_eq s t ≡ false))
text_eq-cases s t = elim (Bool-cases (text_eq s t)) [
  | inl same ↦ inl ((text_eq_iff s t).0 same, same)
  | inr other ↦ inr ((λ e. cc ((text_eq_iff s t).1 e)), other)
]

pub text_eq_ne : {s t : Text} → s ≢ t → text_eq s t ≡ false
text_eq_ne {s} {t} h = elim (text_eq-cases s t) [ inl (e, _) ↦ absurd (h e) | inr (_, e) ↦ e ]

pub ne_of_test : {s t : Text} → text_eq s t ≡ false → s ≢ t
ne_of_test {s} h e = let bad : true ≡ false = sym (text_eq_refl s) ∙ ap (text_eq s) e ∙ h in cc

starts_with→append : (p s : Text) → starts_with p s ≡ true → (r : Text) × (s ≡ p ++ r)
unfolding starts_with
starts_with→append [] s h = (s, refl)
starts_with→append (_ ∷ _) [] h = absurd (cc)
starts_with→append (a ∷ p) (b ∷ s) h =
    let (same, more) = and_split (a == b) (starts_with p s) h in
    let (r, e) = starts_with→append p s more in let same' : a ≡ b = (==_iff a b).0 same in (r, cc)

append→starts_with : (p r : Text) → starts_with p (p ++ r) ≡ true
unfolding starts_with
append→starts_with [] r = refl
append→starts_with (a ∷ p) r = ground (arith, append→starts_with p r)

-- A prefix, with the rest that it leaves.
pub starts_with_iff : (p s : Text) → (starts_with p s ≡ true) ↔ ((r : Text) × (s ≡ p ++ r))
starts_with_iff p s = (starts_with→append p s, λ (r, e). rw e (append→starts_with p r))

pub split_dot-ne_nil : (s : Text) → split_dot s ≢ []
unfolding split_dot
split_dot-ne_nil [] = cc
split_dot-ne_nil (c ∷ s) = ground (arith, split_dot-ne_nil s)

join_dot-push_head :
    (c : ℕ) (ws : List Text) → ws ≢ [] → join_dot (push_head c ws) ≡ c ∷ join_dot ws
unfolding join_dot
join_dot-push_head c [] h = absurd (h refl)
join_dot-push_head c (w ∷ []) h = refl
join_dot-push_head c (w ∷ v ∷ ws) h = refl

join_dot-nil_cons : (ws : List Text) → ws ≢ [] → join_dot ([] ∷ ws) ≡ dot ∷ join_dot ws
unfolding join_dot
join_dot-nil_cons [] h = absurd (h refl)
join_dot-nil_cons (w ∷ ws) h = refl

-- Joining what `split` gives restores the string.
pub join_dot-split_dot : (s : Text) → join_dot (split_dot s) ≡ s
unfolding split_dot join_dot
join_dot-split_dot [] = refl
join_dot-split_dot (c ∷ s) = elim (Bool-cases (c == dot)) [
  | inl at_dot ↦ rw at_dot (
      join_dot-nil_cons (split_dot s) (split_dot-ne_nil s)
      ∙ cc ((==_iff c dot).0 at_dot, join_dot-split_dot s))
  | inr other ↦
      rw other
        (join_dot-push_head c (split_dot s) (split_dot-ne_nil s) ∙ ap (c ∷◌) (join_dot-split_dot s))
]

abbrev pub NoDot : Text → Type 0
NoDot = All (λ c. c ≢ dot)

pub split_dot_of_NoDot : (w : Text) → NoDot w → split_dot w ≡ w ∷ []
unfolding split_dot
split_dot_of_NoDot [] h = refl
split_dot_of_NoDot (c ∷ w) (p, h) = ground (arith, split_dot_of_NoDot w h)

pub split_dot-append : (w s : Text) → NoDot w → split_dot (w ++ dot ∷ s) ≡ w ∷ split_dot s
unfolding split_dot
split_dot-append [] s h = ground arith
split_dot-append (c ∷ w) s (p, h) = ground (arith, split_dot-append w s h)

-- Splitting a path that was joined from segments without dots restores the segments.
pub split_dot-join_dot :
    (w : Text) (ws : List Text) → All NoDot (w ∷ ws) → split_dot (join_dot (w ∷ ws)) ≡ w ∷ ws
unfolding join_dot
split_dot-join_dot w [] (h, _) = split_dot_of_NoDot w h
split_dot-join_dot w (v ∷ ws) (h, k) =
    split_dot-append w (join_dot (v ∷ ws)) h ∙ ap (w ∷◌) (split_dot-join_dot v ws k)
