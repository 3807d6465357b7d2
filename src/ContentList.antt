-- ===== src/ContentList.antt =====
-- frontend/src/admin/content/ContentList.tsx: the list of one collection, its moves with their rollback,
-- deletions and reloads. `slug` reads an item's `slug`. The session's end is the flag `expired`.
pub mod Moves
use mathlib.Core.Option
use anthonyzng_web.Base.{
  ℕ, zero, suc, Bool, true, false, ◌||◌, not, Option, none, some, List, [], ◌∷◌, map, length, ltb,
  leb, ◌==◌, if◌then◌else◌, keep_if,
}
use anthonyzng_web.Base.Text.{Text, text_eq}
use anthonyzng_web.Client.{Failure, aborted, network_error, http_error, payload_error, HttpError}
use anthonyzng_web.Draft.{swapped}

-- `isUnauthorized`
abbrev pub is_unauthorized : Failure → Bool
is_unauthorized (http_error e) = e.status == 401
is_unauthorized _ = false

-- `isChangedElsewhere`
abbrev pub is_changed_elsewhere : Failure → Bool
is_changed_elsewhere (http_error e) = e.status == 412
is_changed_elsewhere _ = false

pub data Direction : Type 0 where
  up down : Direction

-- `index + delta`, where it is not negative
abbrev pub target_of : Direction → ℕ → Option ℕ
target_of up zero = none
target_of up (suc i) = some i
target_of down i = some (suc i)

pub record Screen {ℓ} (Item : Type ℓ) : Type ℓ where
  pub items : Option (List Item)
  pub loading : Bool
  -- While a move is on its way, the list that it would be rolled back to.
  pub moving : Option (List Item)
  pub expired : Bool

abbrev pub is_moving {ℓ} : {A : Type ℓ} → Option A → Bool
is_moving none = false
is_moving (some _) = true

module _ {ℓ} {Item : Type ℓ} where
  unfoldable pub busy : Screen Item → Bool
  busy s = is_moving s.moving || s.loading

  -- `setData`, which edits the list on screen, if there is one
  abbrev pub set_data : List Item → Screen Item → Screen Item
  set_data next s = record s { items = Option.map (λ _. next) s.items }

  abbrev pub moved : List Item → List Item → Screen Item → Screen Item
  moved items next s = record (set_data next s) { moving = some items }

  module _ (slug : Item → Text) where
    abbrev pub move_to : List Item → ℕ → Option ℕ → Screen Item → Screen Item × Option (List Text)
    move_to items index none s = (s, none)
    move_to items index (some target) s =
        if ltb target (length items)
        then (
          moved items (swapped items index target) s,
          some (map slug (swapped items index target)),
        )
        else (s, none)

    abbrev pub move_in :
        Option (List Item) → ℕ → Direction → Screen Item → Screen Item × Option (List Text)
    move_in none index d s = (s, none)
    move_in (some items) index d s =
        if busy s then (s, none) else move_to items index (target_of d index) s

    -- `move` up to its request: the slugs of the reordered list.
    unfoldable pub move : ℕ → Direction → Screen Item → Screen Item × Option (List Text)
    move index d s = move_in s.items index d s

    abbrev pub without : Text → List Item → List Item
    without gone items = keep_if (λ row. not (text_eq (slug row) gone)) items

    -- `onDone` of a deletion
    unfoldable pub remove : Text → Screen Item → Screen Item
    remove gone s = record s { items = Option.map (without gone) s.items }

  -- The answer to a move: the server's list, in display order, as `reorderItems` gives it.
  unfoldable pub move_saved : List Item → Screen Item → Screen Item
  move_saved saved s = record (set_data saved s) { moving = none }

  abbrev pub rolled_back : Bool → List Item → Screen Item → Screen Item
  rolled_back unauthorized items s =
      if unauthorized
      then record (set_data items s) { moving = none; expired = true }
      else record (set_data items s) { moving = none; loading = true }

  abbrev pub move_failed_with : Failure → List Item → Screen Item → Screen Item
  move_failed_with aborted items s = record s { moving = none }
  move_failed_with e items s = rolled_back (is_unauthorized e) items s

  -- The `catch` of `move`: the list from before comes back, and unless the session has ended it is
  -- fetched again.
  unfoldable pub move_failed : Failure → Screen Item → Screen Item
  move_failed e s = elim s.moving [ none ↦ s | some items ↦ move_failed_with e items s ]
