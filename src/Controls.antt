-- ===== src/Controls.antt =====
-- The controls that the editor renders for a field, each as the paths whose errors it asks for, the first
-- one first: frontend/src/admin/editor/EditorField.tsx with SlugField.tsx, LocalizedTextField.tsx,
-- TagListEditor.tsx, BulletsEditor.tsx and EndMonthField.tsx.
pub mod Asked
pub mod OnScreen
use anthonyzng_web.Base.{
  ℕ, zero, suc, max, Bool, true, false, Option, none, some, List, [], ◌∷◌, ◌++◌, length,
  if◌then◌else◌,
}
use anthonyzng_web.Base.Text.{Text}
use anthonyzng_web.Base.Dict.{lookup}
use anthonyzng_web.Json.{Json}
use anthonyzng_web.Draft.{get_strings, get_tags, Tag, noun, term}
use anthonyzng_web.Fields.{
  en, zh_hant, FieldConfig, slug_field, text_field, boolean_field, end_field, tags_field,
  bullets_field, TextField, localized_path, bullets_path, is_visible,
}
use anthonyzng_web.Collections.Types.{Collection}
use anthonyzng_web.Validation.{
  FieldError, FieldErrors, Mode, create, edit, row_path, cell_path, slug_key, end_key,
}

abbrev pub Control : Type 0
Control = List Text

abbrev pub for_path : Text → Control
for_path path = path ∷ []

-- `SlugField`: a saved slug is only text.
abbrev pub slug_controls : Mode → List Control
slug_controls create = for_path slug_key ∷ []
slug_controls edit = []

-- `TextControl`, or one for each language
abbrev pub text_controls : (localized : Bool) → Text → List Control
text_controls true name =
    for_path (localized_path en name) ∷ for_path (localized_path zh_hant name) ∷ []
text_controls false name = for_path name ∷ []

-- A rejection of a whole term is shown on its first control, where that has no error of its own.
unfoldable pub chip_controls : Text → ℕ → List Tag → List Control
chip_controls name index [] = []
chip_controls name index (noun s ∷ tags) =
    for_path (row_path name index) ∷ chip_controls name (suc index) tags
chip_controls name index (term e z ∷ tags) =
    (cell_path (row_path name index) en ∷ row_path name index ∷ [])
    ∷ for_path (cell_path (row_path name index) zh_hant)
    ∷ chip_controls name (suc index) tags

-- The rows of `count` bullets, one control for each language
unfoldable pub bullet_controls : (index count : ℕ) → List Control
bullet_controls index zero = []
bullet_controls index (suc count) =
    for_path (row_path (bullets_path en) index)
    ∷ for_path (row_path (bullets_path zh_hant) index)
    ∷ bullet_controls (suc index) count

abbrev pub bullets_shown : Json → ℕ
bullets_shown draft =
    max (length (get_strings draft (bullets_path en)))
      (length (get_strings draft (bullets_path zh_hant)))

-- `EditorField`
unfoldable pub field_controls : Json → Mode → FieldConfig → List Control
field_controls draft mode (slug_field _ _) = slug_controls mode
field_controls draft mode (text_field f) = text_controls f.localized f.name
field_controls draft mode (boolean_field _ name) = for_path name ∷ []
field_controls draft mode (end_field _) = for_path end_key ∷ []
field_controls draft mode (tags_field f) =
    for_path f.name ∷ chip_controls f.name 0 (get_tags draft f.name)
field_controls draft mode (bullets_field f) =
    for_path (bullets_path en)
    ∷ for_path (bullets_path zh_hant)
    ∷ bullet_controls 0 (bullets_shown draft)

unfoldable pub form_controls : Json → Mode → List FieldConfig → List Control
form_controls draft mode [] = []
form_controls draft mode (f ∷ fs) =
    (if is_visible f draft then field_controls draft mode f else []) ++ form_controls draft mode fs

abbrev pub or_error : Option FieldError → Option FieldError → Option FieldError
or_error (some e) _ = some e
or_error none next = next

-- `api.error(a) ?? api.error(b)`
unfoldable pub shows : FieldErrors → Control → Option FieldError
shows errors [] = none
shows errors (path ∷ paths) = or_error (lookup path errors) (shows errors paths)
