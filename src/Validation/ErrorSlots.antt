-- ===== src/Validation/ErrorSlots.antt =====
-- `errorSlots` and `mapServerFields` of frontend/src/admin/validation.ts: the paths that can show an
-- error in the current form, and where the server's rejections go.
pub mod Cover
pub mod Placement
pub mod Kept
use anthonyzng_web.Base.{
  ℕ, zero, suc, ◌+◌, Bool, true, false, Option, none, some, List, [], ◌∷◌, ◌++◌, length,
  if◌then◌else◌, ◌==◌,
}
use anthonyzng_web.Base.Text.{Text, units, dot, text_eq}
use anthonyzng_web.Base.Dict.{insert_new, has, keys}
use anthonyzng_web.Json.{Json}
use anthonyzng_web.Draft.{get_strings, get_tags, Tag, noun, term}
use anthonyzng_web.Fields.{
  Locale, en, zh_hant, FieldConfig, slug_field, text_field, boolean_field, end_field, tags_field,
  bullets_field, bullets_path, is_visible,
}
use anthonyzng_web.Collections.Types.{Collection}
use anthonyzng_web.Validation.{
  FieldErrors, server_rejected, Mode, create, edit, row_path, cell_path, text_paths, slug_key,
  end_key,
}

unfoldable pub chip_slots : Text → ℕ → List Tag → List Text
chip_slots name index [] = []
chip_slots name index (noun s ∷ tags) = row_path name index ∷ chip_slots name (suc index) tags
chip_slots name index (term e z ∷ tags) =
    row_path name index
    ∷ cell_path (row_path name index) en
    ∷ cell_path (row_path name index) zh_hant
    ∷ chip_slots name (suc index) tags

unfoldable pub row_slots {ℓ} : {A : Type ℓ} → Text → ℕ → List A → List Text
row_slots path index [] = []
row_slots path index (_ ∷ rest) = row_path path index ∷ row_slots path (suc index) rest

unfoldable pub locale_slots : Json → Locale → List Text
locale_slots draft locale =
    bullets_path locale
    ∷ row_slots (bullets_path locale) 0 (get_strings draft (bullets_path locale))

abbrev pub slug_slots : Mode → List Text
slug_slots create = slug_key ∷ []
slug_slots edit = []

unfoldable pub field_slots : Json → Mode → FieldConfig → List Text
field_slots draft mode (slug_field _ _) = slug_slots mode
field_slots draft mode (text_field f) = text_paths f
field_slots draft mode (boolean_field _ name) = name ∷ []
field_slots draft mode (end_field _) = end_key ∷ []
field_slots draft mode (tags_field f) = f.name ∷ chip_slots f.name 0 (get_tags draft f.name)
field_slots draft mode (bullets_field f) = locale_slots draft en ++ locale_slots draft zh_hant

unfoldable pub all_slots : Json → Mode → List FieldConfig → List Text
all_slots draft mode [] = []
all_slots draft mode (f ∷ fs) =
    (if is_visible f draft then field_slots draft mode f else []) ++ all_slots draft mode fs

unfoldable pub error_slots : Collection → Json → Mode → List Text
error_slots collection draft mode = all_slots draft mode collection.fields

-- The text before the last dot (`candidate.slice(0, cut)`), if there is a dot.
unfoldable pub cut_last : Text → Option Text
cut_last [] = none
cut_last (c ∷ s) = elim (cut_last s) [
  | some p ↦ some (c ∷ p)
  | none ↦ if c == dot then some [] else none
]

abbrev pub or_empty : Option Text → Text
or_empty none = []
or_empty (some s) = s

-- The `while` loop of `mapServerFields`, on fuel: the candidate gets shorter in each round.
unfoldable pub climb : List Text → ℕ → Text → Text
climb slots zero candidate = []
climb slots (suc fuel) candidate =
    let rest = climb slots fuel (or_empty (cut_last candidate)) in
    if text_eq candidate [] then [] else if has candidate slots then candidate else rest

abbrev pub body_key : Text
body_key = units "body"

-- The slot that takes a rejection, or the empty text.
unfoldable pub slot_for : List Text → Text → Text
slot_for slots path = if text_eq path body_key then [] else climb slots (suc (length path)) path

pub record Placed : Type 0 where
  pub errors : FieldErrors
  pub unmatched : List Text

abbrev pub place_at : Text → Text → Placed → Placed
place_at [] path placed = record {
  errors = placed.errors;
  unmatched = placed.unmatched ++ path ∷ [];
}
place_at (c ∷ s) path placed = record {
  errors = insert_new (c ∷ s) server_rejected placed.errors;
  unmatched = placed.unmatched;
}

-- The loop over the keys of the 422 `fields` object.
unfoldable pub place_all : List Text → List Text → Placed → Placed
place_all slots [] placed = placed
place_all slots (path ∷ paths) placed =
    place_all slots paths (place_at (slot_for slots path) path placed)

unfoldable pub map_server_fields : List (Text × Text) → List Text → Placed
map_server_fields fields slots =
    place_all slots (keys fields) (record { errors = []; unmatched = [] })
