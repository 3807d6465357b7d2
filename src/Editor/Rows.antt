-- ===== src/Editor/Rows.antt =====
-- The loaded rows above the editor's form (frontend/src/admin/editor/EditorLoader.tsx): a saved row takes the place
-- of the one before, and a changed image goes into its project's row.
use anthonyzng_web.Base.{Option, none, some, List, [], ◌∷◌, if◌then◌else◌}
use anthonyzng_web.Base.Text.{Text, units, text_eq}
use anthonyzng_web.Json.{Json, null, num, str, obj, member, end, find, put}
use anthonyzng_web.Collections.Types.{ImageRef}
use anthonyzng_web.Editor.{EditorForm, row_slug, image_key}

abbrev pub replaced : Json → List Json → List Json
replaced row [] = []
replaced row (entry ∷ rows) =
    (if text_eq (row_slug entry) (row_slug row) then row else entry) ∷ replaced row rows

-- `onRowChange`
unfoldable pub row_changed : Json → EditorForm → EditorForm
row_changed row f = record f { rows = replaced row f.rows }

abbrev pub image_json : Option ImageRef → Json
image_json none = null
image_json (some i) = obj (
    member (units "url") (str i.url)
      (member (units "width") (num i.width) (member (units "height") (num i.height) end)))

-- `'image' in entry ? { ...entry, image } : entry`
abbrev pub with_image : Option ImageRef → Json → Json
with_image image (obj ms) = elim (find image_key ms) [
  | none ↦ obj ms
  | some _ ↦ obj (put image_key (image_json image) ms)
]
with_image image row = row

unfoldable pub images_changed : Option Text → Option ImageRef → List Json → List Json
images_changed none image rows = rows
images_changed (some slug) image [] = []
images_changed (some slug) image (entry ∷ rows) =
    (if text_eq (row_slug entry) slug then with_image image entry else entry)
    ∷ images_changed (some slug) image rows
