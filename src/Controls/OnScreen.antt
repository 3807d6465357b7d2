-- ===== src/Controls/OnScreen.antt =====
-- Every error that the checks find stands at a control of the form: frontend/src/admin/editor/EditorField.tsx
-- with `validateDraft` of frontend/src/admin/validation.ts.
use anthonyzng_web.Base.{
  Bool-cases, Option-cases, inr, refl, if◌then◌else◌, inl, ◌||◌, sym, ◌∙◌, ap, ◌≡◌, Bool, some,
  List, [], ◌∷◌,
}
use anthonyzng_web.Controls.{or_error, form_controls, Json, shows, FieldError, Control}
use anthonyzng_web.Validation.{validate_draft, ValidationContext, FieldErrors}
use anthonyzng_web.Base.Text.{Text}
use anthonyzng_web.Base.Dict.{keys, lookup, has-append, has, IsIn}
use anthonyzng_web.Validation.ErrorSlots.{error_slots, all_slots}
use anthonyzng_web.Base.Text.Laws.{text_eq-cases}
use anthonyzng_web.Collections.Types.{CollectionId}
use anthonyzng_web.Collections.{collection_of}
use anthonyzng_web.Collections.Shape.{collection_errors-IsShown}
use anthonyzng_web.Controls.Asked.{form_asked, asked, find_at}

-- One of the controls asks for the path, and shows an error.
pub data IsShown (errors : FieldErrors) (path : Text) : List Control → Type 0 where
  at_control :
      {c : Control} {cs : List Control} {e : FieldError}
      → IsIn path c
      → shows errors c ≡ some e
      → IsShown errors path (c ∷ cs)
  at_later :
      {c : Control} {cs : List Control} → IsShown errors path cs → IsShown errors path (c ∷ cs)

module _ (errors : FieldErrors) where
  -- A control that asks for a path with an error shows an error.
  shows-some :
      (path : Text) (c : Control) (e : FieldError)
      → lookup path errors ≡ some e
      → IsIn path c
      → (d : FieldError) × (shows errors c ≡ some d)
  unfolding shows has
  shows-some path [] e h g = absurd (cc)
  shows-some path (k ∷ c) e h g = elim (Option-cases (lookup k errors)) [
    | inr (d, found) ↦ (d, ap (λ o. or_error o (shows errors c)) found)
    | inl missing ↦ elim (text_eq-cases k path) [
      | inl (same, _) ↦ absurd (cc)
      | inr (_, t) ↦
          let (d, found) = shows-some path c e h (sym (ap (λ b. b || has path c) t) ∙ g) in
          (d, ap (λ o. or_error o (shows errors c)) missing ∙ found)
    ]
  ]

  IsShown-asked :
      (path : Text) (cs : List Control) (e : FieldError)
      → lookup path errors ≡ some e
      → IsIn path (asked cs)
      → IsShown errors path cs
  unfolding asked has
  IsShown-asked path [] e h g = absurd (cc)
  IsShown-asked path (c ∷ cs) e h g = elim (Bool-cases (has path c)) [
    | inl inside ↦ let (d, found) = shows-some path c e h inside in at_control inside found
    | inr outside ↦ at_later (
        IsShown-asked path cs e h
          (sym (has-append path c (asked cs) ∙ ap (λ b. b || has path (asked cs)) outside) ∙ g))
  ]

-- An error that is found by a path has the path as a key.
lookup-IsIn :
    (path : Text) (e : FieldError) (errors : FieldErrors)
    → lookup path errors ≡ some e
    → IsIn path (keys errors)
unfolding lookup has
lookup-IsIn path e [] h = absurd (cc)
lookup-IsIn path e ((k, d) ∷ errors) h = elim (text_eq-cases k path) [
  | inl (_, t) ↦ rw t refl
  | inr (_, t) ↦
      rw t
        (lookup-IsIn path e errors (sym (ap (λ b. if b then some d else lookup path errors) t) ∙ h))
]

-- For each collection, each draft and each context: where the checks of the draft find an error at a path, one of
-- the controls that the form of the draft renders asks for that path and shows an error.
pub validate_draft-IsShown :
    (parses : Text → Bool) (id : CollectionId) (draft : Json) (context : ValidationContext)
    (path : Text) (e : FieldError)
    → lookup path (validate_draft parses (collection_of id) draft context) ≡ some e
    → IsShown
        (validate_draft parses (collection_of id) draft context)
        path
        (form_controls draft context.mode (collection_of id).fields)
unfolding error_slots
validate_draft-IsShown parses id draft context path e h =
    let collection = collection_of id in
    let errors = validate_draft parses collection draft context in
    let cs = form_controls draft context.mode collection.fields in
    let slots = all_slots draft context.mode collection.fields in
    let listed =
      find_at (λ k. IsIn k slots) path (keys errors)
        (collection_errors-IsShown parses id draft context) (lookup-IsIn path e errors h) in
    IsShown-asked errors path cs e h (
      find_at (λ k. IsIn k (asked cs)) path slots (form_asked draft context.mode collection.fields)
        listed)
