-- ===== src/Security.antt =====
-- Two-factor sign-in in the admin panel: frontend/src/admin/security/TotpConfirmForm.tsx, which asks for the
-- password and a code to turn it on or off, and in Page the page that it stands on.
pub mod Sends
pub mod Ends
pub mod Page
use mathlib.Core.Option
use anthonyzng_web.Base.{
  ℕ, Bool, true, false, ◌&&◌, Option, none, some, List, [], ◌∷◌, ◌==◌, if◌then◌else◌,
}
use anthonyzng_web.Base.Text.{Text, units, text_eq}
use anthonyzng_web.Base.Dict.{has, keys}
use anthonyzng_web.Client.{Result, done, failed, Failure, aborted, http_error, HttpError}
use anthonyzng_web.Codes.{CodeError, code_format, code_error, normalize_code}
use anthonyzng_web.Contact.{is_none}
use anthonyzng_web.Validation.{is_some}
use anthonyzng_web.SignIn.Code.{CodeMessage, flawed, wrong, totp_invalid}

pub data ConfirmField : Type 0 where
  password code : ConfirmField

-- Keys under `security.errors` at the password.
pub data PasswordMessage : Type 0 where
  password_required wrong_password : PasswordMessage

pub record ConfirmErrors : Type 0 where
  pub password_error : Option PasswordMessage
  pub code_message : Option CodeMessage

pub data ConfirmStatus : Type 0 where
  idle submitting invalid unavailable error : ConfirmStatus
  rate_limited : Option ℕ → ConfirmStatus

pub record ConfirmForm : Type 0 where
  pub password_value : Text
  pub code_value : Text
  pub errors : ConfirmErrors
  pub status : ConfirmStatus

-- `TotpConfirmation`
pub record Confirmation : Type 0 where
  pub password_sent : Text
  pub code_sent : Text

abbrev pub no_confirm_errors : ConfirmErrors
no_confirm_errors = record { password_error = none; code_message = none }

abbrev pub empty_confirm : ConfirmForm
empty_confirm = record {
  password_value = [];
  code_value = [];
  errors = no_confirm_errors;
  status = idle;
}

-- `validate`
abbrev pub password_flaw : Text → Option PasswordMessage
password_flaw [] = some password_required
password_flaw (_ ∷ _) = none

abbrev pub code_flaw : Text → Option CodeMessage
code_flaw value = Option.map flawed (code_error value)

-- `change(field)`: a field that is flagged is checked again.
unfoldable pub type_confirm : ConfirmField → Text → ConfirmForm → ConfirmForm
type_confirm password value f = record f {
  password_value = value;
  errors = record f.errors {
    password_error = if is_some f.errors.password_error then password_flaw value else none;
  };
}
type_confirm code value f = record f {
  code_value = value;
  errors = record f.errors {
    code_message = if is_some f.errors.code_message then code_flaw value else none;
  };
}

abbrev pub is_confirming : ConfirmStatus → Bool
is_confirming submitting = true
is_confirming _ = false

abbrev pub found_in : ConfirmForm → ConfirmErrors
found_in f = record {
  password_error = password_flaw f.password_value;
  code_message = code_flaw f.code_value;
}

abbrev pub finds_none : ConfirmErrors → Bool
finds_none e = is_none e.password_error && is_none e.code_message

abbrev pub confirmation : ConfirmForm → Confirmation
confirmation f = record {
  password_sent = f.password_value;
  code_sent = normalize_code f.code_value;
}

-- `flag` without a field to empty
abbrev pub flag : ConfirmErrors → ConfirmForm → ConfirmForm
flag found f = record f { errors = found; status = invalid }

abbrev pub confirm_unless : Bool → ConfirmForm → ConfirmForm × Option Confirmation
confirm_unless true f = (f, none)
confirm_unless false f =
    if finds_none (found_in f)
    then (record f { errors = no_confirm_errors; status = submitting }, some (confirmation f))
    else (flag (found_in f) f, none)

-- `onSubmit` up to its request
unfoldable pub confirm : ConfirmForm → ConfirmForm × Option Confirmation
confirm f = confirm_unless (is_confirming f.status) f

-- What an answer comes to: the form stays, or it tells the page of a change or a conflict, or the session
-- has expired.
pub data ConfirmEnd {ℓ} (A : Type ℓ) : Type ℓ where
  stays : ConfirmForm → ConfirmEnd A
  changes : A → ConfirmEnd A
  conflicts : ConfirmEnd A
  expires : ConfirmEnd A

abbrev pub wrong_password_code : Text
wrong_password_code = units "wrong_password"

abbrev pub named_errors : List (Text × Text) → ConfirmErrors
named_errors fields = record {
  password_error = if has (units "password") (keys fields) then some password_required else none;
  code_message = if has (units "code") (keys fields) then some (flawed code_format) else none;
}

abbrev pub flag_named : ConfirmErrors → ConfirmForm → ConfirmForm
flag_named found f = if finds_none found then record f { status = error } else flag found f

abbrev pub fields_or_none : Option (List (Text × Text)) → List (Text × Text)
fields_or_none none = []
fields_or_none (some fields) = fields

-- The statuses but 401 and 409. A wrong password or code marks its field and empties it.
abbrev pub refused_confirm : HttpError → ConfirmForm → ConfirmForm
refused_confirm h f =
    if h.status == 400 && text_eq h.code wrong_password_code
    then record (flag (record { password_error = some wrong_password; code_message = none }) f) {
      password_value = [];
    }
    else if h.status == 400 && text_eq h.code totp_invalid
    then record (flag (record { password_error = none; code_message = some wrong }) f) {
      code_value = [];
    }
    else if h.status == 422
    then flag_named (named_errors (fields_or_none h.fields)) f
    else if h.status == 429
    then record f { status = rate_limited h.retry_after }
    else if h.status == 503
    then record f { status = unavailable }
    else record f { status = error }

unfoldable pub confirm_answer {ℓ} : {A : Type ℓ} → Result A → ConfirmForm → ConfirmEnd A
confirm_answer (done status) f = changes status
confirm_answer (failed aborted) f = stays f
confirm_answer (failed (http_error h)) f =
    if h.status == 401
    then expires
    else if h.status == 409
    then conflicts
    else stays (refused_confirm h f)
confirm_answer (failed _) f = stays (record f { status = error })
