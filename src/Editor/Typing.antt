-- ===== src/Editor/Typing.antt =====
-- Typing in the editor (`clearErrors`, `apply`, `editSlug`, `discardRestored` and `onProjectChange` of
-- frontend/src/admin/editor/ContentEditorForm.tsx). A write that no control makes (see admin/draft.ts)
-- gives `none`.
pub mod Cleared
pub mod Suggestion
use anthonyzng_web.Base.{
  Bool, true, false, not, ◌&&◌, ◌||◌, Option, none, some, List, [], ◌∷◌, ◌++◌, if◌then◌else◌, ◌>>=◌,
}
use anthonyzng_web.Base.Text.{Text, text_eq, dot, starts_with}
use anthonyzng_web.Base.Dict.{has}
use anthonyzng_web.Json.{Json, str}
use anthonyzng_web.Draft.{set_at}
use anthonyzng_web.Slug.{slugify}
use anthonyzng_web.Collections.Types.{ImageRef}
use anthonyzng_web.Validation.{FieldErrors, Mode, create, edit, slug_key, placeholder_key}
use anthonyzng_web.Editor.{Setting, EditorForm, item_of, mode_of, slug_source, initial}
use anthonyzng_web.Editor.Rows.{images_changed}

-- `stale`: the key is one of the paths, or lies below one.
unfoldable pub is_stale : List Text → Text → Bool
is_stale [] key = false
is_stale (path ∷ paths) key =
    text_eq key path || starts_with (path ++ dot ∷ []) key || is_stale paths key

unfoldable pub clear_errors : FieldErrors → List Text → FieldErrors
clear_errors [] paths = []
clear_errors ((key, error) ∷ errors) paths =
    if is_stale paths key
    then clear_errors errors paths
    else (key, error) ∷ clear_errors errors paths

abbrev pub Entries : Type 0
Entries = List (Text × Json)

abbrev pub paths_of : Entries → List Text
paths_of [] = []
paths_of ((path, _) ∷ entries) = path ∷ paths_of entries

abbrev pub is_create : Mode → Bool
is_create create = true
is_create edit = false

abbrev pub is_source : Option Text → Text → Bool
is_source none path = false
is_source (some source) path = text_eq path source

module _ (e : Setting) where
  -- The slug suggestion still follows its source.
  unfoldable pub suggests : EditorForm → Bool
  suggests f = is_create (mode_of (item_of f)) && not f.slug_edited

  abbrev pub suggested : Bool → Json → Json → Option Json
  suggested true (str value) draft = set_at draft slug_key (str (slugify e.fold value))
  suggested _ value draft = some draft

  -- The loop of `apply`; `following` says that the suggestion follows its source.
  unfoldable pub write_entries : Bool → Entries → Json → Option Json
  write_entries following [] draft = some draft
  write_entries following ((path, value) ∷ entries) draft = do
    written ← set_at draft path value
    next ← suggested (following && is_source (slug_source e.collection.fields) path) value written
    write_entries following entries next

  abbrev pub has_source : Option Text → List Text → Bool
  has_source none paths = false
  has_source (some source) paths = has source paths

  -- The paths whose errors `apply` takes back.
  abbrev pub touched : Bool → Entries → List Text
  touched following entries =
      if following && has_source (slug_source e.collection.fields) (paths_of entries)
      then paths_of entries ++ slug_key ∷ []
      else paths_of entries

  unfoldable pub apply_entries : Entries → EditorForm → Option EditorForm
  apply_entries entries f = do
    draft ← write_entries (suggests f) entries f.draft
    some (record f { draft = draft; errors = clear_errors f.errors (touched (suggests f) entries) })

  -- Emptied by hand, the suggestion takes over again.
  unfoldable pub edit_slug : Text → EditorForm → Option EditorForm
  edit_slug value f = do
    draft ← set_at f.draft slug_key (str value)
    some (record f {
      draft = draft;
      slug_edited = not (text_eq value []);
      errors = clear_errors f.errors (slug_key ∷ []);
    })

  unfoldable pub discard_restored : EditorForm → EditorForm
  discard_restored f = record f {
    draft = initial e f;
    restored = none;
    slug_edited = false;
    errors = [];
    form_errors = [];
  }

-- Without an image, the message that a placeholder has one is out of date.
abbrev pub without_image : Option ImageRef → FieldErrors → FieldErrors
without_image none errors = clear_errors errors (placeholder_key ∷ [])
without_image (some _) errors = errors

unfoldable pub image_changed : Option ImageRef → EditorForm → EditorForm
image_changed image f = record f {
  rows = images_changed f.slug image f.rows;
  errors = without_image image f.errors;
}
