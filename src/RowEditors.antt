-- ===== src/RowEditors.antt =====
-- The list editors of frontend/src/admin/editor (TagListEditor.tsx, BulletsEditor.tsx, RowActions.tsx)
-- and what they do to a list of rows.
pub mod Tags
pub mod Bullets
pub mod EndMonth
pub mod Pairs
use anthonyzng_web.Base.{
  ℕ, zero, suc, Bool, true, false, Option, none, some, List, [], ◌∷◌, ◌++◌, length, erase_idx, ltb,
  if◌then◌else◌,
}
use anthonyzng_web.Draft.{swapped}

pub data RowAction : Type 0 where
  up down remove : RowAction

-- `action === 'up' ? index - 1 : index + 1`, where it is not negative
abbrev pub row_target : RowAction → ℕ → Option ℕ
row_target up zero = none
row_target up (suc i) = some i
row_target _ i = some (suc i)

pub data RowEdit {ℓ} (A : Type ℓ) : Type ℓ where
  add_row : A → RowEdit A
  act_on : (index : ℕ) → RowAction → RowEdit A

-- A list of rows under its edits: `none` where an edit does nothing. A row can be added below the
-- most rows that there may be, and removed above the fewest.
module _ {ℓ} {A : Type ℓ} where
  abbrev pub move_row : List A → ℕ → Option ℕ → Option (List A)
  move_row rows index none = none
  move_row rows index (some target) =
      if ltb target (length rows) then some (swapped rows index target) else none

  abbrev pub edit_rows : (can_add can_remove : Bool) → RowEdit A → List A → Option (List A)
  edit_rows can_add can_remove (add_row row) rows =
      if can_add then some (rows ++ row ∷ []) else none
  edit_rows can_add can_remove (act_on index remove) rows =
      if can_remove then some (erase_idx rows index) else none
  edit_rows can_add can_remove (act_on index action) rows =
      move_row rows index (row_target action index)
