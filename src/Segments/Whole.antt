-- ===== src/Segments/Whole.antt =====
-- The words of a text, put together, are the text.
use mathlib.Core.List.{append_assoc, reverse-cons, append-nil}
use anthonyzng_web.Base.{
  ap₂, ◌≡◌, refl, sym, ap, ◌∙◌, inl, inr, Bool, true, false, ◌||◌, List, [], ◌∷◌, ◌++◌, reverse,
  if◌then◌else◌, Bool-cases,
}
use anthonyzng_web.Base.Text.{Text}
use anthonyzng_web.Segments.{
  Patterns, Split, nbsp, add_space, add_text, add_segment, split, segment_words,
}

-- `join('')`
unfoldable pub join : List Text → Text
join [] = []
join (w ∷ ws) = w ++ join ws

-- The text as it is shown: white space at its start is left out, and any other is a no-break space.
unfoldable pub shown_text : Patterns → (started : Bool) → List Text → Text
shown_text p started [] = []
shown_text p started (segment ∷ segments) =
    let rest = shown_text p started segments in
    let rest_on = shown_text p true segments in
    if p.is_white segment then (if started then nbsp ++ rest else rest) else segment ++ rest_on

abbrev has_words : List Text → Bool
has_words [] = false
has_words (_ ∷ _) = true

-- The words, the latest first, put together
abbrev join_back : List Text → Text
join_back [] = []
join_back (w ∷ ws) = join_back ws ++ w

add_space-join :
    (ws : List Text)
    → join_back (add_space ws) ≡ join_back ws ++ (if has_words ws then nbsp else [])
add_space-join [] = refl
add_space-join (w ∷ ws) = sym (append_assoc (join_back ws) w nbsp)

add_text-join :
    (segment : Text) (glued : Bool) (ws : List Text)
    → join_back (add_text segment glued ws) ≡ join_back ws ++ segment
add_text-join segment glued [] = refl
add_text-join segment true (w ∷ ws) = sym (append_assoc (join_back ws) w segment)
add_text-join segment false (w ∷ ws) = refl

add_space-has_words : (ws : List Text) → has_words (add_space ws) ≡ has_words ws
add_space-has_words [] = refl
add_space-has_words (w ∷ ws) = refl

add_text-has_words :
    (segment : Text) (glued : Bool) (ws : List Text) → has_words (add_text segment glued ws) ≡ true
add_text-has_words segment glued [] = refl
add_text-has_words segment true (w ∷ ws) = refl
add_text-has_words segment false (w ∷ ws) = refl

abbrev spaced : Bool → Text → Text
spaced started rest = if started then nbsp ++ rest else rest

spaced-append :
    (started : Bool) (a rest : Text)
    → (a ++ (if started then nbsp else [])) ++ rest ≡ a ++ spaced started rest
spaced-append true a rest = append_assoc a nbsp rest
spaced-append false a rest = ap (λ (x : Text). x ++ rest) (append-nil a)

split-join :
    (p : Patterns) (segments : List Text) (s : Split)
    → join_back (split p segments s).words
      ≡ join_back s.words ++ shown_text p (has_words s.words) segments
unfolding split shown_text
split-join p [] s = sym (append-nil (join_back s.words))
split-join p (segment ∷ segments) s =
    split-join p segments (add_segment p segment s) ∙ (elim (Bool-cases (p.is_white segment)) [
      | inl t ↦ rw t (
          ap₂ (λ (x : Text) b. x ++ shown_text p b segments) (add_space-join s.words)
            (add_space-has_words s.words)
          ∙ spaced-append (has_words s.words) (join_back s.words)
              (shown_text p (has_words s.words) segments))
      | inr t ↦
          let g = s.glue_next || p.no_break_before segment in
          rw t (
            ap₂ (λ (x : Text) b. x ++ shown_text p b segments) (add_text-join segment g s.words)
              (add_text-has_words segment g s.words)
            ∙ append_assoc (join_back s.words) segment (shown_text p true segments))
    ])

join-append : (a b : List Text) → join (a ++ b) ≡ join a ++ join b
unfolding join
join-append [] b = refl
join-append (w ∷ a) b =
    ap (λ (x : Text). w ++ x) (join-append a b) ∙ sym (append_assoc w (join a) (join b))

join-reverse : (ws : List Text) → join (reverse ws) ≡ join_back ws
unfolding join
join-reverse [] = refl
join-reverse (w ∷ ws) =
    ap join (reverse-cons w ws)
    ∙ join-append (reverse ws) (w ∷ [])
    ∙ ap₂ (λ (x y : Text). x ++ y) (join-reverse ws) (append-nil w)

-- Put together, the words are the text, in which white space is left out at the start and is a no-break
-- space elsewhere.
pub segment_words-join :
    (p : Patterns) (segments : List Text)
    → join (segment_words p segments) ≡ shown_text p false segments
unfolding segment_words
segment_words-join p segments =
    let s = split p segments (record { words = []; glue_next = false }) in
    join-reverse s.words ∙ split-join p segments (record { words = []; glue_next = false })
