-- ===== src/Shell/SignOut.antt =====
-- Signing out in frontend/src/admin/shell/AdminLayout.tsx (`signOutNow`): the answer to the server, and the
-- leaving that it is part of. The menu of the navigation is open at one page.
pub mod Outcome
use anthonyzng_web.Base.{Bool, true, false, Option, none, some, if◌then◌else◌}
use anthonyzng_web.Base.Text.{Text, text_eq}
use anthonyzng_web.Client.{Result, done, failed, Failure}
use anthonyzng_web.ContentList.{is_unauthorized}
use anthonyzng_web.Session.{Session, sign_out, expire}
use anthonyzng_web.Shell.Guard.{Guard, confirm_leave, agree, start_leave, end_leave}

pub record Leaver : Type 0 where
  pub session : Session
  pub signing_out : Bool
  pub at_login : Bool
  pub shows_failure : Bool

-- `logout` is called.
unfoldable pub start_sign_out : Leaver → Leaver
start_sign_out l = record l { signing_out = true }

abbrev pub not_signed_out : Failure → Leaver → Leaver
not_signed_out e l =
    if is_unauthorized e
    then record l { signing_out = false; session = expire l.session }
    else record l { signing_out = false; shows_failure = true }

-- The answer, with whether leaving worked
unfoldable pub sign_out_answer : {A : Type 0} → Result A → Leaver → Leaver × Bool
sign_out_answer (done _) l = (record l { session = sign_out l.session; at_login = true }, true)
sign_out_answer (failed e) l = (not_signed_out e l, false)

-- The button of the menu, and whether the menu is open
abbrev pub is_menu_open : Option Text → Text → Bool
is_menu_open none here = false
is_menu_open (some at) here = text_eq at here

unfoldable pub press_menu : Text → Option Text → Option Text
press_menu here open_at = if is_menu_open open_at here then none else some here
