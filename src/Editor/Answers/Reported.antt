-- ===== src/Editor/Answers/Reported.antt =====
-- What the editor shows of a save that failed, and what it keeps.
use anthonyzng_web.Base.{
  ◌≡◌, ◌≢◌, refl, ◌⊎◌, inl, inr, true, false, ◌&&◌, Option, none, some, List, [], ◌∷◌, map, ◌==◌,
  ==_iff, if_both, and_split, Bool-cases,
}
use anthonyzng_web.Base.Text.{Text}
use anthonyzng_web.Base.Dict.{lookup, has}
use anthonyzng_web.Json.{Json}
use anthonyzng_web.Client.{Failure, aborted, network_error, http_error, payload_error, HttpError}
use anthonyzng_web.Validation.{is_some}
use anthonyzng_web.Validation.ErrorSlots.{error_slots, map_server_fields, slot_for, Placed}
use anthonyzng_web.Validation.ErrorSlots.Kept.{IsKept, map_server_fields-IsKept}
use anthonyzng_web.Editor.{Setting, EditorForm, at_login, item_of, mode_of}
use anthonyzng_web.Editor.Typing.{is_create}
use anthonyzng_web.Editor.Answers.{ended, http_failed, take_failure, message_for, fields_of}

-- The form as the save found it, with the request over and a message on it.
abbrev pub IsReported : EditorForm → EditorForm → Type 0
IsReported f g =
    (g.draft ≡ f.draft)
    × (g.rows ≡ f.rows)
    × (g.place ≡ f.place)
    × (g.saving ≡ false)
    × (g.sent ≡ none)
    × ((g.errors ≢ []) ⊎ (g.form_errors ≢ []))

-- The request is over, and what the user has typed is as it was.
abbrev pub Untouched : EditorForm → EditorForm → Type 0
Untouched f g =
    (g.draft ≡ f.draft)
    × (g.slug ≡ f.slug)
    × (g.rows ≡ f.rows)
    × (g.kept ≡ f.kept)
    × (g.saving ≡ false)
    × (g.sent ≡ none)

-- The failures that a form has to report: none that it caused itself or that ends the session. An
-- answer that names fields names one.
abbrev pub HasReason : Failure → Type 0
HasReason aborted = ⊥
HasReason (http_error h) = (h.status ≢ 401) × (h.fields ≢ some [])
HasReason _ = Unit

has-ne-nil : (path : Text) (paths : List Text) → has path paths ≡ true → paths ≢ []
unfolding has
has-ne-nil path [] h = absurd (cc)
has-ne-nil path (_ ∷ _) h = cc

lookup-ne-nil {ℓ} :
    {V : Type ℓ} (key : Text) (d : List (Text × V)) {v : V} → lookup key d ≡ some v → d ≢ []
unfolding lookup
lookup-ne-nil key [] h = absurd (cc)
lookup-ne-nil key (_ ∷ _) h = cc

map-ne-nil {ℓ κ} : {A : Type ℓ} {B : Type κ} (t : A → B) (xs : List A) → xs ≢ [] → map t xs ≢ []
map-ne-nil t [] n = absurd (n refl)
map-ne-nil t (x ∷ xs) n = cc

-- A rejection leaves a message, wherever it goes.
IsKept-shows :
    (slots : List Text) (placed : Placed) (path : Text)
    → IsKept slots placed path
    → (placed.errors ≢ []) ⊎ (map message_for placed.unmatched ≢ [])
IsKept-shows slots placed path (inl (_, h)) =
    inr (map-ne-nil message_for placed.unmatched (has-ne-nil path placed.unmatched h))
IsKept-shows slots placed path (inr (_, h)) =
    inl (lookup-ne-nil (slot_for slots path) placed.errors h)

rejection_shows :
    (fields : List (Text × Text)) (slots : List Text)
    → fields ≢ []
    → let placed = map_server_fields fields slots in
      (placed.errors ≢ []) ⊎ (map message_for placed.unmatched ≢ [])
rejection_shows [] slots n = absurd (n refl)
rejection_shows ((path, message) ∷ fields) slots n =
    IsKept-shows slots (map_server_fields ((path, message) ∷ fields) slots) path
      (map_server_fields-IsKept ((path, message) ∷ fields) slots).0

named_fields :
    (fields : Option (List (Text × Text)))
    → is_some fields ≡ true
    → fields ≢ some []
    → fields_of fields ≢ []
named_fields none named n = absurd (cc)
named_fields (some []) named n = absurd (n refl)
named_fields (some (_ ∷ _)) named n = cc

module _ (e : Setting) where
  http_failed-IsReported :
      (h : HttpError) (sent : Json) (f : EditorForm)
      → h.fields ≢ some []
      → IsReported f (http_failed e h sent (ended f))
  http_failed-IsReported h sent f n = elim (Bool-cases (h.status == 422 && is_some h.fields)) [
    | inl t ↦
        let slots = error_slots e.collection sent (mode_of (item_of (ended f))) in
        let (_, named) = and_split (h.status == 422) (is_some h.fields) t in
        rw t (
          refl,
          refl,
          refl,
          refl,
          refl,
          rejection_shows (fields_of h.fields) slots (named_fields h.fields named n),
        )
    | inr t ↦ rw t (
        if_both (IsReported f) (h.status == 409 && is_create (mode_of (item_of (ended f))))
          (refl, refl, refl, refl, refl, inl (cc))
          (if_both (IsReported f) (h.status == 412) (refl, refl, refl, refl, refl, inr (cc))
            (if_both (IsReported f) (h.status == 404) (refl, refl, refl, refl, refl, inr (cc))
              (if_both (IsReported f) (h.status == 413) (refl, refl, refl, refl, refl, inr (cc))
                (refl, refl, refl, refl, refl, inr (cc))))))
  ]

  -- A save that failed, other than by an abort or the end of the session, leaves the draft, the rows
  -- and the page as they were, ends the request and puts a message on the form; an answer that names
  -- fields has to name one.
  pub take_failure-IsReported :
      (failure : Failure) (sent : Json) (f : EditorForm)
      → HasReason failure
      → IsReported f (take_failure e failure sent f)
  unfolding take_failure
  take_failure-IsReported aborted sent f r = absurd r
  take_failure-IsReported network_error sent f r = (refl, refl, refl, refl, refl, inr (cc))
  take_failure-IsReported payload_error sent f r = (refl, refl, refl, refl, refl, inr (cc))
  take_failure-IsReported (http_error h) sent f (s, n) = elim (Bool-cases (h.status == 401)) [
    | inl t ↦ absurd (s ((==_iff h.status 401).0 t))
    | inr t ↦ rw t (http_failed-IsReported h sent f n)
  ]

  http_failed-Untouched :
      (h : HttpError) (sent : Json) (f : EditorForm)
      → Untouched f (http_failed e h sent (ended f))
        × ((http_failed e h sent (ended f)).place ≡ f.place)
  http_failed-Untouched h sent f =
      let is_new = is_create (mode_of (item_of (ended f))) in
      let P : EditorForm → Type 0 = λ g. Untouched f g × (g.place ≡ f.place) in
      if_both P (h.status == 422 && is_some h.fields) ((refl, refl, refl, refl, refl, refl), refl)
        (if_both P (h.status == 409 && is_new) ((refl, refl, refl, refl, refl, refl), refl)
          (if_both P (h.status == 412) ((refl, refl, refl, refl, refl, refl), refl)
            (if_both P (h.status == 404) ((refl, refl, refl, refl, refl, refl), refl)
              (if_both P (h.status == 413) ((refl, refl, refl, refl, refl, refl), refl)
                ((refl, refl, refl, refl, refl, refl), refl)))))

  -- Whatever fails, the request is over and what the user has typed is as it was, kept in the tab too;
  -- the tab stays where it is or goes to the login.
  pub take_failure-Untouched :
      (failure : Failure) (sent : Json) (f : EditorForm)
      → let g = take_failure e failure sent f in
        Untouched f g × ((g.place ≡ f.place) ⊎ (g.place ≡ at_login))
  unfolding take_failure
  take_failure-Untouched aborted sent f = ((refl, refl, refl, refl, refl, refl), inl refl)
  take_failure-Untouched network_error sent f = ((refl, refl, refl, refl, refl, refl), inl refl)
  take_failure-Untouched payload_error sent f = ((refl, refl, refl, refl, refl, refl), inl refl)
  take_failure-Untouched (http_error h) sent f =
      let (quiet, here) = http_failed-Untouched h sent f in
      if_both (λ g. Untouched f g × ((g.place ≡ f.place) ⊎ (g.place ≡ at_login))) (h.status == 401)
        ((refl, refl, refl, refl, refl, refl), inr refl) (quiet, inl here)
