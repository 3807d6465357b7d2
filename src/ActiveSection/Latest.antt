-- ===== src/ActiveSection/Latest.antt =====
-- A region counts as visible exactly where the last entry about it says so.
use anthonyzng_web.Base.{
  ◌≢◌, ap₂, ◌⊎◌, ◌||◌, ◌≡◌, refl, sym, ap, ◌∙◌, inl, inr, Bool, true, false, Option, none, some,
  List, [], ◌∷◌, if◌then◌else◌,
}
use anthonyzng_web.Base.Text.{Text, text_eq}
use anthonyzng_web.Base.Text.Laws.{text_eq-cases}
use anthonyzng_web.Base.Dict.{has}
use anthonyzng_web.ActiveSection.{drop_text, observe, observe_one, active_section}

-- The state of a region, from the entries in order
unfoldable pub last_state : Text → (before : Bool) → List (Text × Bool) → Bool
last_state id before [] = before
last_state id before ((other, crosses) ∷ entries) =
    last_state id (if text_eq other id then crosses else before) entries

unless_here : (b c : Bool) → (if b then false else b || c) ≡ (if b then false else c)
unless_here true c = refl
unless_here false c = refl

-- An entry decides about its own region, and about no other.
has-drop_text :
    (id other : Text) (visible : List Text)
    → has id (drop_text other visible) ≡ (if text_eq other id then false else has id visible)
unfolding has
has-drop_text id other [] = sym (if_same (text_eq other id))
  where
    if_same : (b : Bool) → (if b then false else false) ≡ false
    if_same true = refl
    if_same false = refl
has-drop_text id other (v ∷ visible) = elim (text_eq-cases v other) [
  | inl (e, t) ↦ rw t (
      has-drop_text id other visible
      ∙ sym (unless_here (text_eq other id) (has id visible))
      ∙ ap (λ (x : Text). if text_eq other id then false else text_eq x id || has id visible)
          (sym e))
  | inr (n, t) ↦ rw t (kept (text_eq-cases v id) (has-drop_text id other visible) n)
]
  where
    kept :
        ((v ≡ id) × (text_eq v id ≡ true)) ⊎ ((v ≢ id) × (text_eq v id ≡ false))
        → has id (drop_text other visible) ≡ (if text_eq other id then false else has id visible)
        → v ≢ other
        → (text_eq v id || has id (drop_text other visible))
          ≡ (if text_eq other id then false else text_eq v id || has id visible)
    kept (inl (e, t)) ih n = elim (text_eq-cases other id) [
      | inl (same, _) ↦ absurd (n (e ∙ sym same))
      | inr (_, u) ↦ rw (t, u) refl
    ]
    kept (inr (_, t)) ih n = rw t ih

has-observe_one :
    (id other : Text) (crosses : Bool) (visible : List Text)
    → has id (observe_one (other, crosses) visible)
      ≡ (if text_eq other id then crosses else has id visible)
unfolding has
has-observe_one id other true visible = by_same (text_eq other id)
  where
    by_same : (b : Bool) → (b || has id visible) ≡ (if b then true else has id visible)
    by_same true = refl
    by_same false = refl
has-observe_one id other false visible = has-drop_text id other visible

-- After any reports, a region counts as visible as its last entry says, and as before where it has none.
pub observe-last :
    (id : Text) (entries : List (Text × Bool)) (visible : List Text)
    → has id (observe entries visible) ≡ last_state id (has id visible) entries
unfolding observe last_state
observe-last id [] visible = refl
observe-last id ((other, crosses) ∷ entries) visible =
    observe-last id entries (observe_one (other, crosses) visible)
    ∙ ap (λ b. last_state id b entries) (has-observe_one id other crosses visible)

-- The first region whose last entry says that it crosses the band
unfoldable pub first_crossing : List Text → List (Text × Bool) → Option Text
first_crossing [] entries = none
first_crossing (id ∷ ids) entries =
    let rest = first_crossing ids entries in if last_state id false entries then some id else rest

-- From an empty page on, the region that is published is the first of the page's whose last entry says that
-- it crosses the band.
pub active_section-first_crossing :
    (ids : List Text) (entries : List (Text × Bool))
    → active_section ids (observe entries []) ≡ first_crossing ids entries
unfolding active_section first_crossing has
active_section-first_crossing [] entries = refl
active_section-first_crossing (id ∷ ids) entries =
    let rest = active_section-first_crossing ids entries in
    ap₂ (λ b o. if b then some id else o) (observe-last id entries []) rest
