-- ===== src/Editor.antt =====
-- frontend/src/admin/editor/ContentEditorForm.tsx and EditorLoader.tsx: the form that creates or edits
-- one row of a collection, from its opening to its requests.
-- `EditorForm` is the state of the form with the loaded rows above it, which the form's answers replace.
-- `kept` is what the tab's storage holds for this form in the format of this build (admin/draftStore.ts); a full
-- or unavailable storage refuses a write, which `full` says. The effect that follows the draft is `synced`, which
-- each step ends with. `place` is where the tab has gone to.
pub mod Rows
pub mod Typing
pub mod Saving
pub mod Answers
pub mod Lifetime
use mathlib.Core.Option
use anthonyzng_web.Base.{
  ℕ, Bool, true, false, not, ◌&&◌, Option, none, some, List, [], ◌∷◌, map, if◌then◌else◌,
}
use anthonyzng_web.Base.Text.{Text, units, text_eq}
use anthonyzng_web.Json.{Json, null, num, str, obj, Members, member, end, find, put}
use anthonyzng_web.Draft.{child, get_string, as_string, same_draft}
use anthonyzng_web.Fields.{FieldConfig, slug_field}
use anthonyzng_web.DraftStore.{same_keys}
use anthonyzng_web.Slug.{slugify}
use anthonyzng_web.Collections.Types.{Collection, ImageRef, is_projects}
use anthonyzng_web.Validation.{FieldErrors, Mode, create, edit, ValidationContext, slug_key}

-- What the form is set up with: its collection, the engine's Unicode folding for slug suggestions,
-- the browser's URL parser, and the encoding of URL parts.
pub record Setting : Type 0 where
  pub collection : Collection
  pub fold : Text → Text
  pub parses : Text → Bool
  pub encode : Text → Text

pub record Kept : Type 0 where
  pub draft : Json
  pub base : Option Text

-- A message above the form. A rejected field is a server key that matches no control.
pub data FormError : Type 0 where
  body_rejected changed_elsewhere gone too_large save_failed network_failed : FormError
  field_rejected : Text → FormError

-- Where the tab is: at the form, at a page that the form went to, or elsewhere, once the user has agreed to lose
-- the changes. The edit page of a new row comes with what the storage holds for it.
pub data Place : Type 0 where
  at_form at_list at_login elsewhere : Place
  at_edit_page : (slug : Text) → Option Kept → Place

pub record EditorForm : Type 0 where
  -- The row being edited, or `none` for a new one.
  pub slug : Option Text
  pub rows : List Json
  pub draft : Json
  -- A kept draft came back; `some true` where the row was saved elsewhere since it started.
  pub restored : Option Bool
  pub slug_edited : Bool
  pub errors : FieldErrors
  pub form_errors : List FormError
  pub conflict : Bool
  pub saving : Bool
  -- The draft of the request that is on its way.
  pub sent : Option Json
  pub kept : Option Kept
  pub place : Place

abbrev pub updated_at_key : Text
updated_at_key = units "updatedAt"

abbrev pub image_key : Text
image_key = units "image"

abbrev pub row_slug : Json → Text
row_slug row = as_string (child row slug_key)

abbrev pub row_version : Json → Text
row_version row = as_string (child row updated_at_key)

-- `rows.find((row) => row.slug === slug)`
unfoldable pub find_row : Text → List Json → Option Json
find_row slug [] = none
find_row slug (row ∷ rows) = if text_eq (row_slug row) slug then some row else find_row slug rows

abbrev pub row_of : Option Text → List Json → Option Json
row_of none rows = none
row_of (some slug) rows = find_row slug rows

-- `item`, as EditorLoader hands it to the form.
unfoldable pub item_of : EditorForm → Option Json
item_of f = row_of f.slug f.rows

abbrev pub mode_of : Option Json → Mode
mode_of none = create
mode_of (some _) = edit

-- `initial`: what the server has.
abbrev pub initial_of : Collection → Option Json → Json
initial_of c none = c.empty_draft
initial_of c (some row) = c.to_draft row

-- `item?.updatedAt ?? null`
abbrev pub base_of_item : Option Json → Option Text
base_of_item item = Option.map row_version item

-- Numbers stay bit patterns, as in `Json`.
abbrev pub number_in : Option Json → ℕ
number_in (some (num n)) = n
number_in _ = 0

abbrev pub image_in : Option Json → Option ImageRef
image_in (some (obj ms)) = some (record {
  url = as_string (find (units "url") ms);
  width = number_in (find (units "width") ms);
  height = number_in (find (units "height") ms);
})
image_in _ = none

-- `project?.image ?? null`
unfoldable pub image_of : Collection → Option Json → Option ImageRef
image_of c none = none
image_of c (some row) = if is_projects c.id then image_in (child row image_key) else none

-- `collection.fields.find((field) => field.kind === 'slug')?.source ?? null`
unfoldable pub slug_source : List FieldConfig → Option Text
slug_source [] = none
slug_source (slug_field _ source ∷ _) = source
slug_source (_ ∷ fields) = slug_source fields

abbrev pub same_base : Option Text → Option Text → Bool
same_base none none = true
same_base (some a) (some b) = text_eq a b
same_base _ _ = false

-- `writeDraft`: a storage that refuses the write still holds what it held.
abbrev pub stored : (full : Bool) → Kept → Option Kept → Option Kept
stored true k before = before
stored false k before = some k

-- The shape test of `readDraft`
unfoldable pub same_shape : Json → Json → Bool
same_shape (obj a) (obj b) = same_keys a b
same_shape _ _ = false

-- `readDraft`: the kept draft, if it has the shape of `like`
abbrev pub read_kept : Json → Option Kept → Option Kept
read_kept like none = none
read_kept like (some k) = if same_shape k.draft like then some k else none

module _ (e : Setting) where
  abbrev pub initial : EditorForm → Json
  initial f = initial_of e.collection (item_of f)

  unfoldable pub is_dirty : EditorForm → Bool
  is_dirty f = not (same_draft f.draft (initial f))

  -- What the storage holds after the effect that follows the draft.
  unfoldable pub kept_of : (full : Bool) → EditorForm → Option Kept
  kept_of full f =
      if is_dirty f
      then stored full (record { draft = f.draft; base = base_of_item (item_of f) }) f.kept
      else none

  abbrev pub synced_at : (full : Bool) → Place → EditorForm → EditorForm
  synced_at full at_form f = record f { kept = kept_of full f }
  synced_at full _ f = f

  unfoldable pub synced : (full : Bool) → EditorForm → EditorForm
  synced full f = synced_at full f.place f

  abbrev differs_from_source : Option Text → Json → Bool
  differs_from_source none draft = false
  differs_from_source (some source) draft =
      not (text_eq (get_string draft slug_key) (slugify e.fold (get_string draft source)))

  abbrev pub clean_form : Option Text → List Json → EditorForm
  clean_form slug rows = record {
    slug = slug;
    rows = rows;
    draft = initial_of e.collection (row_of slug rows);
    restored = none;
    slug_edited = false;
    errors = [];
    form_errors = [];
    conflict = false;
    saving = false;
    sent = none;
    kept = none;
    place = at_form;
  }

  abbrev pub restored_form : Kept → EditorForm → EditorForm
  restored_form k f = record f {
    draft = k.draft;
    restored = some (not (same_base k.base (base_of_item (item_of f))));
    slug_edited = differs_from_source (slug_source e.collection.fields) k.draft;
  }

  abbrev pub opened_with : Option Kept → EditorForm → EditorForm
  opened_with none f = f
  opened_with (some k) f = if same_draft k.draft f.draft then f else restored_form k f

  -- The form as it opens on the loaded rows, with what the storage holds for it.
  unfoldable pub open_form : (full : Bool) → Option Text → List Json → Option Kept → EditorForm
  open_form full slug rows kept =
      let clean = record (clean_form slug rows) { kept = kept } in
      synced full (opened_with (read_kept clean.draft kept) clean)

  -- The user agrees to lose the changes, and leaves: `onDiscard` of `useUnsavedChanges`. The request on its way, if
  -- any, is aborted.
  unfoldable pub leave_form : EditorForm → EditorForm
  leave_form f = record f { kept = none; sent = none; place = elsewhere }

  -- What `validateDraft` is asked with.
  abbrev pub context : EditorForm → ValidationContext
  context f = record {
    mode = mode_of (item_of f);
    existing_slugs = map row_slug f.rows;
    image = image_of e.collection (item_of f);
  }
