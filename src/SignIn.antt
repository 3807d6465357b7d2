-- ===== src/SignIn.antt =====
-- frontend/src/admin/pages/LoginPage.tsx: signing in by password behind a Turnstile check, and by a code
-- where the account asks for one. `code_step` is there while the page shows that step.
-- The page is left once the session is signed in; until then no request is aborted but by the code
-- step's own button, which takes the step away.
pub mod Code
pub mod Sends
pub mod Refused
pub mod Spent
pub mod Lifetime
use anthonyzng_web.Base.{
  ℕ, Bool, true, false, not, ◌&&◌, ◌||◌, Option, none, some, List, [], ◌∷◌, length, ltb, ◌==◌,
  if◌then◌else◌,
}
use anthonyzng_web.Base.Text.{Text, units, text_eq, trim}
use anthonyzng_web.Base.Dict.{has, keys}
use anthonyzng_web.Client.{Result, done, failed, Failure, aborted, http_error, HttpError}
use anthonyzng_web.Turnstile.{Turnstile, current_token, on_token, clear, switch}
use anthonyzng_web.Contact.{is_email, is_none}
use anthonyzng_web.Validation.{is_some}
use anthonyzng_web.Session.{Session, signed_in, sign_in}
use Code.{
  CodeStep, CodeEnd, stays, signs_in, hands_back, fresh_code, type_code, verify, code_answer,
}

pub data LoginField : Type 0 where
  email password : LoginField

-- Keys under `login.errors`.
pub data LoginError : Type 0 where
  email_required email_invalid password_required turnstile_required : LoginError

pub record LoginErrors : Type 0 where
  pub email_error : Option LoginError
  pub password_error : Option LoginError
  pub turnstile_error : Option LoginError

pub data LoginStatus : Type 0 where
  idle invalid submitting wrong_credentials verification_failed unavailable code_expired error :
      LoginStatus
  rate_limited : Option ℕ → LoginStatus

-- What a right password gives: a session, or a pending sign-in that waits for a code.
pub data LoginAnswer : Type 0 where
  is_signed_in : (address : Text) → LoginAnswer
  totp_required : LoginAnswer

pub record Login : Type 0 where
  pub email_value : Text
  pub password_value : Text
  pub errors : LoginErrors
  pub attempted : Bool
  pub status : LoginStatus
  pub turnstile : Turnstile
  pub code_step : Option CodeStep
  pub session : Session

-- `LoginRequest`
pub record LoginRequest : Type 0 where
  pub email_sent : Text
  pub password_sent : Text
  pub token_sent : Text

abbrev pub email_check : Text → Option LoginError
email_check [] = some email_required
email_check (c ∷ s) =
    if ltb 254 (length (c ∷ s)) || not (is_email (c ∷ s)) then some email_invalid else none

abbrev pub password_check : Text → Option LoginError
password_check [] = some password_required
password_check (_ ∷ _) = none

-- `validate`
unfoldable pub login_check : LoginField → Text → Option LoginError
login_check email value = email_check (trim value)
login_check password value = password_check value

abbrev pub login_value : LoginField → Login → Text
login_value email l = l.email_value
login_value password l = l.password_value

abbrev pub login_error : LoginField → LoginErrors → Option LoginError
login_error email e = e.email_error
login_error password e = e.password_error

abbrev pub put_error : LoginField → Option LoginError → LoginErrors → LoginErrors
put_error email k e = record e { email_error = k }
put_error password k e = record e { password_error = k }

abbrev pub put_value : LoginField → Text → Login → Login
put_value email s l = record l { email_value = s }
put_value password s l = record l { password_value = s }

abbrev pub with_error : LoginField → Text → Login → Login
with_error f value l = record l { errors = put_error f (login_check f value) l.errors }

-- `change(field)`
unfoldable pub type_login : LoginField → Text → Login → Login
type_login f value l =
    if is_some (login_error f l.errors)
    then with_error f value (put_value f value l)
    else put_value f value l

-- `blur(field)`
unfoldable pub leave_login : LoginField → Login → Login
leave_login f l =
    if l.attempted || not (text_eq (login_value f l) [])
    then with_error f (login_value f l) l
    else l

-- A token comes from the widget; `onToken` takes its message back.
unfoldable pub login_token : Text → Login → Login
login_token token l = record l {
  turnstile = on_token token l.turnstile;
  errors = record l.errors { turnstile_error = none };
}

abbrev pub found_errors : Option Text → Login → LoginErrors
found_errors token l = record {
  email_error = login_check email l.email_value;
  password_error = login_check password l.password_value;
  turnstile_error = if is_none token then some turnstile_required else none;
}

abbrev pub no_login_errors : LoginErrors → Bool
no_login_errors e = is_none e.email_error && is_none e.password_error && is_none e.turnstile_error

abbrev pub refuse_login : LoginErrors → Login → Login
refuse_login e l = record l { attempted = true; errors = e; status = invalid }

abbrev pub login_request : Text → Login → LoginRequest
login_request token l = record {
  email_sent = trim l.email_value;
  password_sent = l.password_value;
  token_sent = token;
}

abbrev pub try_login : Option Text → LoginErrors → Login → Login × Option LoginRequest
try_login none e l = (refuse_login e l, none)
try_login (some token) e l =
    if no_login_errors e
    then (
      record l { attempted = true; errors = e; status = submitting },
      some (login_request token l),
    )
    else (refuse_login e l, none)

abbrev pub is_submitting : LoginStatus → Bool
is_submitting submitting = true
is_submitting _ = false

abbrev pub login_unless : Bool → Login → Login × Option LoginRequest
login_unless true l = (l, none)
login_unless false l =
    try_login (current_token l.turnstile) (found_errors (current_token l.turnstile) l) l

-- `onSubmit` up to its request
unfoldable pub submit_login : Login → Login × Option LoginRequest
submit_login l = login_unless (is_submitting l.status) l

-- `turnstile.reset()`
abbrev pub reset_token : Login → Login
reset_token l = record l { turnstile = clear l.turnstile }

abbrev pub names : List (Text × Text) → Text → LoginError → Option LoginError
names fields key e = if has key (keys fields) then some e else none

abbrev pub errors_from : List (Text × Text) → LoginErrors
errors_from fields = record {
  email_error = names fields (units "email") email_invalid;
  password_error = names fields (units "password") password_required;
  turnstile_error = names fields (units "turnstileToken") turnstile_required;
}

abbrev pub flagged : LoginErrors → Login → Login
flagged e l =
    if no_login_errors e
    then record l { errors = e; status = error }
    else record l { errors = e; status = invalid }

-- A 422: the fields that it names, or a general error. The token is kept unless it is named.
abbrev pub rejected_login : List (Text × Text) → Login → Login
rejected_login fields l =
    if has (units "turnstileToken") (keys fields)
    then reset_token (flagged (errors_from fields) l)
    else flagged (errors_from fields) l

abbrev pub turnstile_failed : Text
turnstile_failed = units "turnstile_failed"

-- The statuses but 422, after the token is reset.
abbrev pub refused_login : HttpError → Login → Login
refused_login h l =
    if h.status == 401
    then record l { password_value = []; status = wrong_credentials }
    else if h.status == 429
    then record l { status = rate_limited h.retry_after }
    else if h.status == 400 && text_eq h.code turnstile_failed
    then record l { status = verification_failed }
    else if h.status == 503
    then record l { status = unavailable }
    else record l { status = error }

abbrev pub http_login : Option (List (Text × Text)) → HttpError → Login → Login
http_login none h l = refused_login h (reset_token l)
http_login (some fields) h l =
    if h.status == 422 then rejected_login fields l else refused_login h (reset_token l)

abbrev pub failed_login : Failure → Login → Login
failed_login aborted l = l
failed_login (http_error h) l = http_login h.fields h l
failed_login _ l = record (reset_token l) { status = error }

-- The rest of `onSubmit`
unfoldable pub login_answer : Result LoginAnswer → Login → Login
login_answer (done totp_required) l = record l {
  turnstile = clear l.turnstile;
  password_value = [];
  status = idle;
  code_step = some fresh_code;
}
login_answer (done (is_signed_in address)) l = record l { session = sign_in address l.session }
login_answer (failed e) l = failed_login e l

-- What the page makes of the code step's end (`onSignedIn`, `onRestart`).
abbrev pub code_ended : CodeEnd → Login → Login
code_ended (stays s) l = record l { code_step = some s }
code_ended (signs_in address) l = record l { session = sign_in address l.session }
code_ended (hands_back is_expired) l = record l {
  code_step = none;
  status = if is_expired then code_expired else idle;
}

-- `shown`: "check the highlighted fields" lives as long as something is highlighted.
unfoldable pub login_shown : Login → LoginStatus
login_shown l = elim l.status [
  | invalid ↦ if no_login_errors l.errors then idle else invalid
  | s ↦ s
]
