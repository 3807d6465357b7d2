-- ===== src/ActiveSection.antt =====
-- frontend/src/animations/useActiveSection.ts: the region that the navigation marks, from what the
-- observer reports. An entry is a region's id and whether it crosses the band.
pub mod Latest
use anthonyzng_web.Base.{
  Bool, true, false, not, Option, none, some, List, [], ◌∷◌, if◌then◌else◌, keep_if,
}
use anthonyzng_web.Base.Text.{Text, text_eq}
use anthonyzng_web.Base.Dict.{has}

abbrev pub drop_text : Text → List Text → List Text
drop_text id ids = keep_if (λ v. not (text_eq v id)) ids

abbrev pub observe_one : Text × Bool → List Text → List Text
observe_one (id, true) visible = id ∷ visible
observe_one (id, false) visible = drop_text id visible

-- The loop over the entries of one report
unfoldable pub observe : List (Text × Bool) → List Text → List Text
observe [] visible = visible
observe (entry ∷ entries) visible = observe entries (observe_one entry visible)

abbrev pub first_visible : List Text → List Text → Option Text
first_visible [] visible = none
first_visible (id ∷ ids) visible =
    let rest = first_visible ids visible in if has id visible then some id else rest

-- What is published after a report
unfoldable pub active_section : (ids : List Text) → List Text → Option Text
active_section ids visible = first_visible ids visible
