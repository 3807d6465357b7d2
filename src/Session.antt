-- ===== src/Session.antt =====
-- The admin session: frontend/src/admin/session/AdminSessionProvider.tsx, RequireAuth.tsx and
-- loginState.ts. A location is given as its path with search and hash; `none` stands for a value of
-- the router's state that is no text.
pub mod Return
use anthonyzng_web.Base.{
  ℕ, Bool, true, false, ◌||◌, not, ◌&&◌, Option, none, some, List, [], ◌∷◌, ◌==◌, if◌then◌else◌,
}
use anthonyzng_web.Base.Text.{Text, units, text_eq, starts_with}
use anthonyzng_web.Client.{
  Result, done, failed, Failure, aborted, network_error, http_error, payload_error,
}
use anthonyzng_web.ContentList.{is_unauthorized}

pub data Session : Type 0 where
  unknown : Session
  signed_in : (address : Text) → Session
  signed_out : Session
  expired : Session

abbrev pub sign_in : Text → Session → Session
sign_in address s = signed_in address

abbrev pub sign_out : Session → Session
sign_out s = signed_out

-- The first 401 decides, and the rest change nothing; either way the session has expired.
abbrev pub expire : Session → Session
expire s = expired

-- `Entry`
pub data Entry : Type 0 where
  checking entered anonymous check_failed : Entry

abbrev pub first_entry : Session → Entry
first_entry (signed_in _) = entered
first_entry _ = checking

-- The answer to the check of `GET /auth/me`, which gives the address
unfoldable pub checked : Result Text → Session × Entry → Session × Entry
checked (done address) (s, entry) = (sign_in address s, entered)
checked (failed aborted) (s, entry) = (s, entry)
checked (failed e) (s, entry) = (s, if is_unauthorized e then anonymous else check_failed)

pub data LoginReason : Type 0 where
  was_expired was_signed_out : LoginReason

pub data Gate : Type 0 where
  to_login : Option LoginReason → Gate
  panel : (address : Text) → Gate
  waiting : (failed : Bool) → Gate

abbrev pub waits_for : Entry → Gate
waits_for check_failed = waiting true
waits_for _ = waiting false

-- What `RequireAuth` shows.
unfoldable pub gate : Session → Entry → Gate
gate expired entry = to_login (some was_expired)
gate s anonymous = to_login none
gate (signed_in address) entered = panel address
gate s entry = waits_for entry

abbrev pub dashboard : Text
dashboard = units "/admin"

abbrev pub login_path : Text
login_path = units "/admin/login"

abbrev pub ends_word : Text → Bool
ends_word [] = true
ends_word (c ∷ _) = c == b'/' || c == b'?' || c == b'#'

-- `/^\/admin(?:[/?#]|$)/`
unfoldable pub is_admin_after : Text → Text → Bool
is_admin_after [] s = ends_word s
is_admin_after (_ ∷ _) [] = false
is_admin_after (a ∷ p) (c ∷ s) = a == c && is_admin_after p s

abbrev pub is_way_back : Text → Bool
is_way_back from = is_admin_after dashboard from && not (starts_with login_path from)

-- `readLoginState`, the way back
unfoldable pub read_from : Option Text → Text
read_from none = dashboard
read_from (some from) = if is_way_back from then from else dashboard

-- `readLoginState`, the reason
unfoldable pub read_reason : Option Text → Option LoginReason
read_reason none = none
read_reason (some s) =
    if text_eq s (units "expired")
    then some was_expired
    else if text_eq s (units "signedOut")
    then some was_signed_out
    else none
