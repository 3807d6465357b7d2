-- ===== src/Reading/Arrivals.antt =====
-- `watchSectionArrivals` of frontend/src/animations/sectionArrival.ts: the sections that reach the middle of
-- the screen. A section is its index among the page's; an entry says whether it crosses the band.
pub mod Changes
use anthonyzng_web.Base.{
  ℕ, Bool, true, false, not, ◌||◌, Option, none, some, List, [], ◌∷◌, ◌++◌, ◌==◌, if◌then◌else◌,
}

pub record Watch : Type 0 where
  pub current : Option ℕ
  -- What the listeners were told, in order
  pub announced : List ℕ

abbrev pub is_current : ℕ → Option ℕ → Bool
is_current index none = false
is_current index (some c) = c == index

-- The first section that is seen is not announced.
abbrev pub arrive : ℕ → Option ℕ → List ℕ → Watch
arrive index none told = record { current = some index; announced = told }
arrive index (some _) told = record { current = some index; announced = told ++ index ∷ [] }

abbrev pub see_new : (is_known : Bool) → ℕ → Watch → Watch
see_new true index w = w
see_new false index w = arrive index w.current w.announced

abbrev pub see : ℕ × Bool → Watch → Watch
see (index, false) w = w
see (index, true) w = see_new (is_current index w.current) index w

unfoldable pub watch : List (ℕ × Bool) → Watch → Watch
watch [] w = w
watch (entry ∷ entries) w = watch entries (see entry w)
