-- ===== src/SignIn/Code.antt =====
-- frontend/src/admin/pages/LoginCodeStep.tsx: the second step of a sign-in, an authenticator code.
pub mod Ends
use mathlib.Core.Option
use anthonyzng_web.Base.{ℕ, Bool, true, false, ◌&&◌, Option, none, some, [], ◌==◌, if◌then◌else◌}
use anthonyzng_web.Base.Text.{Text, units, text_eq}
use anthonyzng_web.Client.{Result, done, failed, Failure, aborted, http_error, HttpError}
use anthonyzng_web.Codes.{CodeError, code_format, code_error, normalize_code}

-- The message at the field.
pub data CodeMessage : Type 0 where
  flawed : CodeError → CodeMessage
  wrong : CodeMessage

pub data CodeStatus : Type 0 where
  idle submitting invalid wrong_code unavailable error : CodeStatus
  rate_limited : Option ℕ → CodeStatus

pub record CodeStep : Type 0 where
  pub code : Text
  pub message : Option CodeMessage
  pub status : CodeStatus

-- What the step comes to: it stays, signs in, or hands back to the password (`onRestart`).
pub data CodeEnd : Type 0 where
  stays : CodeStep → CodeEnd
  signs_in : (address : Text) → CodeEnd
  hands_back : (expired : Bool) → CodeEnd

abbrev pub fresh_code : CodeStep
fresh_code = record { code = []; message = none; status = idle }

abbrev rechecked : Option CodeMessage → Text → Option CodeMessage
rechecked none value = none
rechecked (some _) value = Option.map flawed (code_error value)

unfoldable pub type_code : Text → CodeStep → CodeStep
type_code value s = record s { code = value; message = rechecked s.message value }

abbrev pub is_verifying : CodeStatus → Bool
is_verifying submitting = true
is_verifying _ = false

abbrev pub checked_code : Option CodeError → CodeStep → CodeStep × Option Text
checked_code (some problem) s =
    (record s { message = some (flawed problem); status = invalid }, none)
checked_code none s =
    (record s { message = none; status = submitting }, some (normalize_code s.code))

abbrev pub verify_unless : Bool → CodeStep → CodeStep × Option Text
verify_unless true s = (s, none)
verify_unless false s = checked_code (code_error s.code) s

-- `onSubmit` up to its request: the code that is sent.
unfoldable pub verify : CodeStep → CodeStep × Option Text
verify s = verify_unless (is_verifying s.status) s

abbrev pub totp_invalid : Text
totp_invalid = units "totp_invalid"

-- The statuses after 401.
abbrev pub code_refused : HttpError → CodeStep → CodeStep
code_refused h s =
    if h.status == 400 && text_eq h.code totp_invalid
    then record { code = []; message = some wrong; status = wrong_code }
    else if h.status == 422
    then record s { message = some (flawed code_format); status = invalid }
    else if h.status == 429
    then record s { status = rate_limited h.retry_after }
    else if h.status == 503
    then record s { status = unavailable }
    else record s { status = error }

unfoldable pub code_answer : Result Text → CodeStep → CodeEnd
code_answer (done address) s = signs_in address
code_answer (failed aborted) s = stays s
code_answer (failed (http_error h)) s =
    if h.status == 401 then hands_back true else stays (code_refused h s)
code_answer (failed _) s = stays (record s { status = error })
