-- ===== src/RowEditors/Bullets.antt =====
-- frontend/src/admin/editor/BulletsEditor.tsx: bullets as paired rows, one text for each locale.
pub mod Padding
pub mod Refines
use anthonyzng_web.Base.{
  ℕ, zero, suc, Bool, true, false, Option, none, some, List, [], ◌∷◌, ◌++◌, length, erase_idx, ltb,
  leb, max, if◌then◌else◌,
}
use anthonyzng_web.Base.Text.{Text}
use anthonyzng_web.Json.{Json, arr}
use anthonyzng_web.Draft.{get_strings, strings_json, swapped}
use anthonyzng_web.Fields.{Locale, en, zh_hant, BulletsField, bullets_path}
use anthonyzng_web.Editor.Typing.{Entries}
use anthonyzng_web.RowEditors.{act_on, add_row, RowEdit, RowAction, up, down, remove, row_target}

abbrev pub bullets_of : Json → Locale → List Text
bullets_of draft locale = get_strings draft (bullets_path locale)

-- `count`
unfoldable pub row_count : Json → ℕ
row_count draft = max (length (bullets_of draft en)) (length (bullets_of draft zh_hant))

-- `Array.from({ length: count }, (_, index) => list[index] ?? '')`
unfoldable pub pad_to : ℕ → List Text → List Text
pad_to zero list = []
pad_to (suc n) [] = [] ∷ pad_to n []
pad_to (suc n) (s ∷ list) = s ∷ pad_to n list

-- `pad(list)`
unfoldable pub pad_locale : Json → Locale → List Text
pad_locale draft locale = pad_to (row_count draft) (bullets_of draft locale)

-- `commit`
abbrev pub commit : List Text → List Text → Entries
commit next_en next_zh =
    (bullets_path en, arr (strings_json next_en))
    ∷ (bullets_path zh_hant, arr (strings_json next_zh))
    ∷ []

-- Both lists changed in the same way.
abbrev pub commit_both : Json → (List Text → List Text) → Entries
commit_both draft change = commit (change (pad_locale draft en)) (change (pad_locale draft zh_hant))

unfoldable pub add_bullet : BulletsField → Json → Option Entries
add_bullet field draft =
    if leb field.max (row_count draft)
    then none
    else some (commit_both draft (λ list. list ++ [] ∷ []))

abbrev pub move_bullet : Json → ℕ → Option ℕ → Option Entries
move_bullet draft index none = none
move_bullet draft index (some target) =
    if ltb target (row_count draft)
    then some (commit_both draft (λ list. swapped list index target))
    else none

-- `act`
unfoldable pub act_bullet : BulletsField → Json → ℕ → RowAction → Option Entries
act_bullet field draft index remove =
    if leb (row_count draft) field.min
    then none
    else some (commit_both draft (λ list. erase_idx list index))
act_bullet field draft index action = move_bullet draft index (row_target action index)

-- The handlers of the add button and of a row's actions.
abbrev pub bullet_entries : BulletsField → Json → RowEdit {0} Unit → Option Entries
bullet_entries field draft (add_row _) = add_bullet field draft
bullet_entries field draft (act_on index action) = act_bullet field draft index action
