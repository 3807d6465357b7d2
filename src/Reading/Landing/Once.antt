-- ===== src/Reading/Landing/Once.antt =====
-- A landing is corrected at most once, never after the reader has taken over, and moves the focus at most
-- once, at its start.
use anthonyzng_web.Base.{◌⊎◌, ◌≡◌, refl, ap, ◌∙◌, true, false, Option, none, some, List, [], ◌∷◌}
use anthonyzng_web.Base.Text.{Text}
use anthonyzng_web.Reading.Landing.{
  corrected, taken_over, Move, Landing, waits_for, run_effect, reader_takes_over, fonts_ready,
}

pub data Event : Type 0 where
  effect_runs reader_input fonts_came : Event

abbrev pub step : Event → Landing → Landing
step effect_runs l = run_effect l
step reader_input l = reader_takes_over l
step fonts_came l = fonts_ready l

unfoldable pub run : List Event → Landing → Landing
run [] l = l
run (e ∷ es) l = run es (step e l)

abbrev pub landed : Option Move → List Move
landed none = []
landed (some m) = m ∷ []

abbrev pub landed_again : Option Move → List Move
landed_again none = []
landed_again (some m) = record m { focus = false } ∷ m ∷ []

-- A landing for `o` waits only until it is settled, and has moved as `o` asks, and once more if settled.
abbrev Follows : Option Move → Landing → Type 0
Follows o l =
    (l.landing ≡ o)
    × (l.waits ≡ true → l.settled ≡ false)
    × ((l.moves ≡ landed o) ⊎ ((l.settled ≡ true) × (l.moves ≡ landed_again o)))

waits_for-settled : (o : Option Move) → waits_for o true ≡ false
waits_for-settled none = refl
waits_for-settled (some m) = refl

abbrev Rests : Landing → Type 0
Rests l = (l.settled ≡ true) × (l.waits ≡ false)

step-Rests : (e : Event) (l : Landing) → Rests l → Rests (step e l) × ((step e l).moves ≡ l.moves)
unfolding run_effect reader_takes_over fonts_ready
step-Rests effect_runs l (s, w) =
    ((s, ap (waits_for l.landing) s ∙ waits_for-settled l.landing), refl)
step-Rests reader_input l (s, w) =
    let same : taken_over l.waits l ≡ l = ap (λ b. taken_over b l) w in rw same ((s, w), refl)
step-Rests fonts_came l (s, w) =
    let same : corrected l.waits l ≡ l = ap (λ b. corrected b l) w in rw same ((s, w), refl)

run-Rests : (es : List Event) (l : Landing) → Rests l → (run es l).moves ≡ l.moves
unfolding run
run-Rests [] l h = refl
run-Rests (e ∷ es) l h =
    let (rests, same) = step-Rests e l h in run-Rests es (step e l) rests ∙ same

-- Once the reader has taken over, the page is not moved any more.
pub reader_takes_over-rests :
    (l : Landing) (es : List Event)
    → l.waits ≡ true
    → (run es (reader_takes_over l)).moves ≡ l.moves
unfolding reader_takes_over
reader_takes_over-rests l es h =
    let now : taken_over l.waits l ≡ taken_over true l = ap (λ b. taken_over b l) h in
    rw now (run-Rests es (taken_over true l) (refl, refl))
