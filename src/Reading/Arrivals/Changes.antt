-- ===== src/Reading/Arrivals/Changes.antt =====
-- What is announced are the changes of the section in the middle.
use anthonyzng_web.Base.{
  ℕ, ◌≡◌, refl, sym, ap, ◌∙◌, inl, inr, Bool, true, false, none, some, List, [], ◌∷◌, ◌++◌, ◌==◌,
  if◌then◌else◌, Bool-cases,
}
use anthonyzng_web.Reading.Arrivals.{Watch, see_new, watch}
use mathlib.Core.List.{append_assoc, append-nil}

-- The sections that cross the band, in order
unfoldable pub crossing : List (ℕ × Bool) → List ℕ
crossing [] = []
crossing ((index, crosses) ∷ entries) =
    let rest = crossing entries in if crosses then index ∷ rest else rest

-- Of a run of equal ones only the first is kept, and none that goes on with the one before.
unfoldable pub changes : ℕ → List ℕ → List ℕ
changes before [] = []
changes before (index ∷ rest) =
    let same = changes before rest in
    let other = changes index rest in if before == index then same else index ∷ other

unfoldable pub changes_after_first : List ℕ → List ℕ
changes_after_first [] = []
changes_after_first (index ∷ rest) = changes index rest

watch-changes :
    (entries : List (ℕ × Bool)) (before : ℕ) (told : List ℕ)
    → (watch entries (record { current = some before; announced = told })).announced
      ≡ told ++ changes before (crossing entries)
unfolding watch crossing changes
watch-changes [] before told = sym (append-nil told)
watch-changes ((index, false) ∷ entries) before told = watch-changes entries before told
watch-changes ((index, true) ∷ entries) before told = elim (Bool-cases (before == index)) [
  | inl t ↦
      ap (λ b. (watch entries (see_new b index w)).announced) t
      ∙ watch-changes entries before told
      ∙ sym (ap (λ b. told ++ (if b then changes before rest else index ∷ changes index rest)) t)
  | inr t ↦
      ap (λ b. (watch entries (see_new b index w)).announced) t
      ∙ watch-changes entries index (told ++ index ∷ [])
      ∙ append_assoc told (index ∷ []) (changes index rest)
      ∙ sym (ap (λ b. told ++ (if b then changes before rest else index ∷ changes index rest)) t)
]
  where
    w : Watch
    w = record { current = some before; announced = told }

    rest : List ℕ
    rest = crossing entries

-- From the start on, the announcements are the sections that cross the band, each one that differs from the
-- one before, without the first.
pub watch-announced :
    (entries : List (ℕ × Bool))
    → (watch entries (record { current = none; announced = [] })).announced
      ≡ changes_after_first (crossing entries)
unfolding watch crossing changes_after_first
watch-announced [] = refl
watch-announced ((index, false) ∷ entries) = watch-announced entries
watch-announced ((index, true) ∷ entries) = watch-changes entries index []
