-- ===== src/Editor/Saving.antt =====
-- Saving in the editor (`onSubmit` of frontend/src/admin/editor/ContentEditorForm.tsx up to its request).
pub mod Sends
use anthonyzng_web.Base.{Bool, true, false, Option, none, some, List, [], ◌∷◌, if◌then◌else◌}
use anthonyzng_web.Json.{Json}
use anthonyzng_web.Validation.{FieldErrors, validate_draft}
use anthonyzng_web.Api.{Request, create_item, update_item}
use anthonyzng_web.Editor.{Setting, EditorForm, FormError, item_of, row_slug, row_version, context}

-- `failed`
abbrev pub with_errors : FieldErrors → List FormError → EditorForm → EditorForm
with_errors field form f = record f { errors = field; form_errors = form }

abbrev pub sending : EditorForm → EditorForm
sending f = record f {
  errors = [];
  form_errors = [];
  conflict = false;
  saving = true;
  sent = some f.draft;
}

module _ (e : Setting) where
  -- An edit matches the version it started from.
  abbrev pub request_of : Option Json → Json → Request
  request_of none payload = create_item e.encode e.collection payload
  request_of (some item) payload =
      update_item e.encode e.collection (row_slug item) payload (row_version item)

  unfoldable pub save_request : EditorForm → Request
  save_request f = request_of (item_of f) (e.collection.to_payload f.draft)

  abbrev pub checked_save : FieldErrors → EditorForm → EditorForm × Option Request
  checked_save [] f = (sending f, some (save_request f))
  checked_save (found ∷ more) f = (with_errors (found ∷ more) [] f, none)

  -- `if (saving) return`, then the checks
  abbrev pub save_unless : Bool → EditorForm → EditorForm × Option Request
  save_unless true f = (f, none)
  save_unless false f = checked_save (validate_draft e.parses e.collection f.draft (context e f)) f

  unfoldable pub save : EditorForm → EditorForm × Option Request
  save f = save_unless f.saving f
