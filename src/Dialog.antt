-- ===== src/Dialog.antt =====
-- frontend/src/admin/components/ConfirmDialog.tsx: a confirmation as a native modal dialog, in step with the
-- page that opens it. `is_open` is what the page says, `is_shown` the platform's dialog, and `close_due`
-- says that its close event has yet to come. The page's `onCancel` closes it. `closed` counts `onClosed`,
-- `confirmed` counts `onConfirm`. The dialog stays in the document. Focus is left out.
pub mod InStep
use anthonyzng_web.Base.{ℕ, suc, Bool, true, false, ◌&&◌, if◌then◌else◌}

pub record Dialog : Type 0 where
  pub is_open : Bool
  pub is_shown : Bool
  pub close_due : Bool
  pub is_busy : Bool
  pub closed : ℕ
  pub confirmed : ℕ

-- The effect that follows `open`
abbrev pub show_as : (opens shown : Bool) → Dialog → Dialog
show_as true shown d = record d { is_open = true; is_shown = true }
show_as false true d = record d { is_open = false; is_shown = false; close_due = true }
show_as false false d = record d { is_open = false }

unfoldable pub set_open : Bool → Dialog → Dialog
set_open opens d = show_as opens d.is_shown d

unfoldable pub set_busy : Bool → Dialog → Dialog
set_busy busy d = record d { is_busy = busy }

abbrev pub cancel_unless : Bool → Dialog → Dialog
cancel_unless true d = d
cancel_unless false d = set_open false d

-- The Cancel button, and Escape
unfoldable pub cancel : Dialog → Dialog
cancel d = cancel_unless d.is_busy d

-- The confirm button
unfoldable pub press_confirm : Dialog → Dialog
press_confirm d = if d.is_busy then d else record d { confirmed = suc d.confirmed }

-- The platform closes the dialog on its own.
unfoldable pub platform_closes : Dialog → Dialog
platform_closes d = if d.is_shown then record d { is_shown = false; close_due = true } else d

abbrev pub told_closed : Dialog → Dialog
told_closed d = record d { closed = suc d.closed }

abbrev pub close_with : (opens busy : Bool) → Dialog → Dialog
close_with true true d = record d { is_shown = true }
close_with true false d = told_closed (set_open false d)
close_with false busy d = told_closed d

-- `onClose`, once the close event comes
unfoldable pub close_came : Dialog → Dialog
close_came d = close_with d.is_open d.is_busy (record d { close_due = false })
