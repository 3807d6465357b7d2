-- ===== src/Segments.antt =====
-- `segmentWords` of frontend/src/animations/splitText.ts: the words that a Chinese text may break between.
-- Parameters: the segments that Intl.Segmenter finds, and the three patterns that a segment may match,
-- which stand on the Unicode categories.
pub mod Breaks
pub mod Whole
use anthonyzng_web.Base.{ℕ, Bool, true, false, ◌||◌, List, [], ◌∷◌, ◌++◌, reverse, if◌then◌else◌}
use anthonyzng_web.Base.Text.{Text}

pub record Patterns : Type 0 where
  pub is_white : Text → Bool
  pub no_break_before : Text → Bool
  pub no_break_after : Text → Bool

-- The no-break space
abbrev pub nbsp : Text
nbsp = 160 ∷ []

-- The words so far, the latest first, and whether the next segment is glued to it.
pub record Split : Type 0 where
  pub words : List Text
  pub glue_next : Bool

abbrev pub add_space : List Text → List Text
add_space [] = []
add_space (w ∷ ws) = (w ++ nbsp) ∷ ws

abbrev pub add_text : Text → (glued : Bool) → List Text → List Text
add_text segment glued [] = segment ∷ []
add_text segment true (w ∷ ws) = (w ++ segment) ∷ ws
add_text segment false (w ∷ ws) = segment ∷ w ∷ ws

abbrev pub add_segment : Patterns → Text → Split → Split
add_segment p segment s =
    if p.is_white segment then record s { words = add_space s.words } else record s {
      words = add_text segment (s.glue_next || p.no_break_before segment) s.words;
      glue_next = p.no_break_after segment;
    }

unfoldable pub split : Patterns → List Text → Split → Split
split p [] s = s
split p (segment ∷ segments) s = split p segments (add_segment p segment s)

unfoldable pub segment_words : Patterns → List Text → List Text
segment_words p segments =
    reverse (split p segments (record { words = []; glue_next = false })).words
