-- ===== src/Modals.antt =====
-- The two modal dialogs of the public site, which hold the page's smooth scrolling while they are open:
-- frontend/src/components/MobileMenu.tsx and ContactDialog.tsx. `lenis` is the scrolling, if there is one,
-- and whether it runs; `close_due` says that the dialog's close event has yet to come. Focus and the
-- end of a dialog with its page are left out.
pub mod Released
use anthonyzng_web.Base.{Bool, true, false, Option, none, some}

pub record Modal : Type 0 where
  pub is_shown : Bool
  pub is_open : Bool
  pub close_due : Bool
  pub mounted : Bool
  pub lenis : Option Bool

abbrev pub run_as : Bool → Option Bool → Option Bool
run_as runs none = none
run_as runs (some _) = some runs

abbrev pub open_unless : (shown : Bool) → Modal → Modal
open_unless true m = m
open_unless false m = record m { is_shown = true; is_open = true; lenis = run_as false m.lenis }

-- `openMenu`
unfoldable pub open_menu : Modal → Modal
open_menu m = open_unless m.is_shown m

-- The platform's `close`, by a button, by Escape or by the program: its event comes later.
abbrev pub close_if : (shown : Bool) → Modal → Modal
close_if true m = record m { is_shown = false; close_due = true }
close_if false m = m

unfoldable pub close_dialog : Modal → Modal
close_dialog m = close_if m.is_shown m

-- `closeMenu`
unfoldable pub close_menu : Modal → Modal
unfolding close_dialog
close_menu m = record (close_dialog m) { is_open = false; lenis = run_as true m.lenis }

abbrev pub close_menu_if : (shown : Bool) → Modal → Modal
close_menu_if true m = close_menu m
close_menu_if false m = m

-- Another page, or the desktop layout
unfoldable pub leave_menu : Modal → Modal
leave_menu m = close_menu_if m.is_shown m

-- `onDialogClose`, and the `onClose` of the contact dialog
unfoldable pub close_event : Modal → Modal
close_event m = record m { is_open = false; close_due = false; lenis = run_as true m.lenis }

-- Smooth scrolling starts or ends: a new one runs.
unfoldable pub lenis_changes : Bool → Modal → Modal
lenis_changes true m = record m { lenis = some true }
lenis_changes false m = record m { lenis = none }

abbrev pub show_unless : (shown : Bool) → Modal → Modal
show_unless true m = m
show_unless false m = record (open_unless false m) { mounted = true }

-- `show` of the contact dialog, whose form is mounted by the first opening
unfoldable pub show_contact : Modal → Modal
show_contact m = show_unless m.is_shown m
