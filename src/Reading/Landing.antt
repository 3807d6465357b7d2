-- ===== src/Reading/Landing.antt =====
-- frontend/src/animations/useHashScroll.ts: the landing on a region of the home page, and its one
-- correction once the fonts are there. How far into the region it lands is left out.
pub mod Once
use anthonyzng_web.Base.{
  ℕ, Bool, true, false, ◌&&◌, not, Option, none, some, List, [], ◌∷◌, if◌then◌else◌,
}
use anthonyzng_web.Base.Text.{Text}
use anthonyzng_web.Reading.Regions.{is_landing_id}

-- A scroll to a region, with whether its heading takes the focus
pub record Move : Type 0 where
  pub region : Text
  pub focus : Bool

-- `waits` says that the present run of the effect has neither been cancelled nor come to its end.
pub record Landing : Type 0 where
  pub landing : Option Move
  pub settled : Bool
  pub waits : Bool
  pub moves : List Move

-- The hash without its mark, and whether a section link of another page asked for the focus
unfoldable pub landing_of : (hash : Text) (focus_requested : Bool) → Option Move
landing_of hash focus_requested =
    if is_landing_id hash then some (record { region = hash; focus = focus_requested }) else none

abbrev pub land : Option Move → Landing → Landing
land none l = l
land (some m) l = record l { moves = m ∷ l.moves }

abbrev pub waits_for : Option Move → (settled : Bool) → Bool
waits_for none settled = false
waits_for (some _) settled = not settled

-- The effect: a run that is cancelled, and the next.
unfoldable pub run_effect : Landing → Landing
run_effect l = record l { waits = waits_for l.landing l.settled }

-- The page is mounted: it lands, and the effect runs.
unfoldable pub mount : Text → Bool → Landing
unfolding run_effect landing_of
mount hash focus_requested = run_effect (
    land (landing_of hash focus_requested) (record {
      landing = landing_of hash focus_requested;
      settled = false;
      waits = false;
      moves = [];
    }))

abbrev pub taken_over : Bool → Landing → Landing
taken_over true l = record l { settled = true; waits = false }
taken_over false l = l

-- `readerTookOver`, whose listeners are there while the run is
unfoldable pub reader_takes_over : Landing → Landing
reader_takes_over l = taken_over l.waits l

abbrev pub without_focus : Option Move → Option Move
without_focus none = none
without_focus (some m) = some (record m { focus = false })

abbrev pub corrected : Bool → Landing → Landing
corrected true l = land (without_focus l.landing) (record l { settled = true; waits = false })
corrected false l = l

-- The fonts are ready, or have taken too long.
unfoldable pub fonts_ready : Landing → Landing
fonts_ready l = corrected l.waits l
