-- ===== src/Editor/Typing/Cleared.antt =====
-- Which errors typing takes back.
use anthonyzng_web.Base.{
  ◌≡◌, refl, inl, inr, ◌∙◌, ap, none, some, List, [], ◌∷◌, if◌then◌else◌, Bool-cases, bind-inv,
}
use anthonyzng_web.Base.Text.{Text}
use anthonyzng_web.Base.Text.Laws.{text_eq-cases}
use anthonyzng_web.Base.Dict.{lookup}
use anthonyzng_web.Validation.{FieldErrors}
use anthonyzng_web.Editor.{Setting, EditorForm}
use anthonyzng_web.Editor.Typing.{
  Entries, is_stale, clear_errors, touched, suggests, apply_entries, write_entries,
}

-- An error stays exactly where its key is none of the paths and lies below none.
pub lookup-clear_errors :
    (errors : FieldErrors) (paths : List Text) (key : Text)
    → lookup key (clear_errors errors paths)
      ≡ (if is_stale paths key then none else lookup key errors)
unfolding clear_errors lookup
lookup-clear_errors [] paths key = elim (Bool-cases (is_stale paths key)) [
  | inl e ↦ rw e refl
  | inr e ↦ rw e refl
]
lookup-clear_errors ((k, v) ∷ errors) paths key =
    let ih = lookup-clear_errors errors paths key in
    elim (Bool-cases (is_stale paths k)) [
      | inl s ↦ elim (text_eq-cases k key) [
        | inl (e, t) ↦ rw (s, t) (ih ∙ rw (← e, s) refl)
        | inr (_, t) ↦ rw (s, t) ih
      ]
      | inr s ↦ elim (text_eq-cases k key) [
        | inl (e, t) ↦ rw (s, lookup, t) (rw (← e, s) refl)
        | inr (_, t) ↦ rw (s, lookup, t) ih
      ]
    ]

-- Typing takes back the errors at the paths it writes and below them, and no others; they count the
-- slug where its suggestion follows one of them.
pub apply_entries-clears :
    (e : Setting) (entries : Entries) (f : EditorForm) {g : EditorForm}
    → apply_entries e entries f ≡ some g
    → (key : Text)
    → lookup key g.errors
      ≡ (if is_stale (touched e (suggests e f) entries) key then none else lookup key f.errors)
unfolding apply_entries
apply_entries-clears e entries f {g} h key =
    let (d, _, same) = bind-inv (write_entries e (suggests e f) entries f.draft) _ h in
    let here : clear_errors f.errors (touched e (suggests e f) entries) ≡ g.errors =
      ap (λ o. elim o [ none ↦ [] | some x ↦ x.errors ]) same in
    rw (← here) (lookup-clear_errors f.errors (touched e (suggests e f) entries) key)
