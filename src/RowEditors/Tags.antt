-- ===== src/RowEditors/Tags.antt =====
-- frontend/src/admin/editor/TagListEditor.tsx: the chips of a list, added, moved, removed and switched
-- between a proper noun and a translated term. Each handler gives the entries that it hands to the
-- form's `update`, or `none` where it returns early.
pub mod Refines
pub mod Kinds
use anthonyzng_web.Base.{
  ℕ, Bool, true, false, Option, none, some, List, [], ◌∷◌, ◌++◌, length, get_elem?, erase_idx, ltb,
  leb, if◌then◌else◌,
}
use anthonyzng_web.Json.{Json, arr}
use anthonyzng_web.Draft.{Tag, noun, term, is_term_tag, get_tags, tag_json, tags_json, swapped}
use anthonyzng_web.Fields.{TagsField}
use anthonyzng_web.Validation.{row_path}
use anthonyzng_web.Editor.Typing.{Entries}
use anthonyzng_web.RowEditors.{RowAction, up, down, remove, row_target, RowEdit, add_row, act_on}

abbrev pub empty_term : Tag
empty_term = term [] []

-- `api.update(field.name, next)`
abbrev pub tags_entry : TagsField → List Tag → Entries
tags_entry field next = (field.name, arr (tags_json next)) ∷ []

abbrev pub add_tag : TagsField → List Tag → Tag → Option Entries
add_tag field tags tag =
    if leb field.max (length tags) then none else some (tags_entry field (tags ++ tag ∷ []))

abbrev pub move_tag : TagsField → List Tag → ℕ → Option ℕ → Option Entries
move_tag field tags index none = none
move_tag field tags index (some target) =
    if ltb target (length tags) then some (tags_entry field (swapped tags index target)) else none

abbrev pub act_tag : TagsField → List Tag → ℕ → RowAction → Option Entries
act_tag field tags index remove = some (tags_entry field (erase_idx tags index))
act_tag field tags index action = move_tag field tags index (row_target action index)

unfoldable pub tag_entries : TagsField → Json → RowEdit Tag → Option Entries
tag_entries field draft (add_row tag) = add_tag field (get_tags draft field.name) tag
tag_entries field draft (act_on index action) =
    act_tag field (get_tags draft field.name) index action

abbrev pub as_kind : Bool → Tag → Option Tag
as_kind true (noun s) = some (term s [])
as_kind false (term en zh) = some (noun en)
as_kind _ _ = none

abbrev pub kind_of_row : Bool → Option Tag → Option Tag
kind_of_row kind none = none
kind_of_row kind (some tag) = as_kind kind tag

-- `setKind`: the chip that the switch leaves at the row.
unfoldable pub set_kind : TagsField → Json → ℕ → (is_term : Bool) → Option Entries
set_kind field draft index is_term =
    elim (kind_of_row is_term (get_elem? (get_tags draft field.name) index)) [
      | none ↦ none
      | some tag ↦ some ((row_path field.name index, tag_json tag) ∷ [])
    ]
