-- ===== src/Segments/Breaks.antt =====
-- The words hold the whole text in order, and no word begins or ends where a break is not allowed.
use mathlib.Core.List.{reverse-reverse}
use anthonyzng_web.Base.{if_both, ◌≡◌, refl, Bool, true, false, ◌||◌, List, [], ◌∷◌, ◌++◌, reverse}
use anthonyzng_web.Base.Text.{Text}
use anthonyzng_web.Segments.{
  Patterns, Split, nbsp, add_space, add_text, add_segment, split, segment_words,
}

-- A word begins with a segment that a break may come before.
pub data MayBegin (p : Patterns) : Text → Type 0 where
  begins : (segment : Text) → p.no_break_before segment ≡ false → MayBegin p segment
  goes_on : {w : Text} (rest : Text) → MayBegin p w → MayBegin p (w ++ rest)

-- A word ends with a segment that a break may come after, then no-break spaces.
pub data MayEnd (p : Patterns) : Text → Type 0 where
  ends : (before segment : Text) → p.no_break_after segment ≡ false → MayEnd p (before ++ segment)
  ends_space : {w : Text} → MayEnd p w → MayEnd p (w ++ nbsp)

-- With the latest word first: each word but the first may begin, and each but the latest may end.
pub data Breakable (p : Patterns) : List Text → Type 0 where
  no_word : Breakable p []
  first_word : {w : Text} → Breakable p (w ∷ [])
  next_word :
      {w v : Text} {ws : List Text}
      → MayBegin p w
      → MayEnd p v
      → Breakable p (v ∷ ws)
      → Breakable p (w ∷ v ∷ ws)

data LatestEnds (p : Patterns) : List Text → Type 0 where
  none_ends : LatestEnds p []
  latest_ends : {w : Text} {ws : List Text} → MayEnd p w → LatestEnds p (w ∷ ws)

abbrev Fine : Patterns → Split → Type 0
Fine p s = Breakable p s.words × (s.glue_next ≡ false → LatestEnds p s.words)

grown-Breakable :
    (p : Patterns) (rest : Text) {w : Text} {ws : List Text}
    → Breakable p (w ∷ ws)
    → Breakable p ((w ++ rest) ∷ ws)
grown-Breakable p rest first_word = first_word
grown-Breakable p rest (next_word b e h) = next_word (goes_on rest b) e h

add_space-Breakable : (p : Patterns) (ws : List Text) → Breakable p ws → Breakable p (add_space ws)
add_space-Breakable p [] h = h
add_space-Breakable p (w ∷ ws) h = grown-Breakable p nbsp h

add_space-ends : (p : Patterns) (ws : List Text) → LatestEnds p ws → LatestEnds p (add_space ws)
add_space-ends p [] h = h
add_space-ends p (w ∷ ws) (latest_ends e) = latest_ends (ends_space e)

add_text-Breakable :
    (p : Patterns) (segment : Text) (glue no_break : Bool) (ws : List Text)
    → p.no_break_before segment ≡ no_break
    → Breakable p ws
    → (glue ≡ false → LatestEnds p ws)
    → Breakable p (add_text segment (glue || no_break) ws)
add_text-Breakable p segment glue no_break [] k h e = first_word
add_text-Breakable p segment true no_break (w ∷ ws) k h e = grown-Breakable p segment h
add_text-Breakable p segment false true (w ∷ ws) k h e = grown-Breakable p segment h
add_text-Breakable p segment false false (w ∷ ws) k h e = latest (e refl)
  where
    latest : LatestEnds p (w ∷ ws) → Breakable p (segment ∷ w ∷ ws)
    latest (latest_ends m) = next_word (begins segment k) m h

add_text-ends :
    (p : Patterns) (segment : Text) (glued : Bool) (ws : List Text)
    → p.no_break_after segment ≡ false
    → LatestEnds p (add_text segment glued ws)
add_text-ends p segment glued [] k = latest_ends (ends [] segment k)
add_text-ends p segment true (w ∷ ws) k = latest_ends (ends w segment k)
add_text-ends p segment false (w ∷ ws) k = latest_ends (ends [] segment k)

add_segment-Fine :
    (p : Patterns) (segment : Text) (s : Split) → Fine p s → Fine p (add_segment p segment s)
add_segment-Fine p segment s (h, e) =
    if_both (λ (c : Split). Fine p c) (p.is_white segment)
      (add_space-Breakable p s.words h, λ k. add_space-ends p s.words (e k))
      (
        add_text-Breakable p segment s.glue_next (p.no_break_before segment) s.words refl h e,
        λ k. add_text-ends p segment (s.glue_next || p.no_break_before segment) s.words k,
      )

split-Fine :
    (p : Patterns) (segments : List Text) (s : Split) → Fine p s → Fine p (split p segments s)
unfolding split
split-Fine p [] s h = h
split-Fine p (segment ∷ segments) s h =
    split-Fine p segments (add_segment p segment s) (add_segment-Fine p segment s h)

-- Read from the last word to the first, every word but the first begins where a break may come before it,
-- and every word but the last ends where a break may come after it.
pub segment_words-Breakable :
    (p : Patterns) (segments : List Text) → Breakable p (reverse (segment_words p segments))
unfolding segment_words
segment_words-Breakable p segments =
    let s = split p segments (record { words = []; glue_next = false }) in
    let fine : Breakable p s.words =
      (split-Fine p segments (record { words = []; glue_next = false })
        (no_word, λ k. none_ends)).0 in
    rw (reverse-reverse s.words) fine
