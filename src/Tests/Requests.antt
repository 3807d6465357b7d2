-- ===== src/Tests/Requests.antt =====
-- Runs of requests, the contact form, the content list and uploads.
use anthonyzng_web.Base.{
  ℕ, ◌≡◌, refl, ◌≢◌, ◌↔◌, ◌⊎◌, true, false, Option, none, some, List, [], ◌∷◌, Bool,
}
use anthonyzng_web.Base.Text.{Text, units}
use anthonyzng_web.Json.{Json}
use anthonyzng_web.Client.{
  Response, rejected, answered, threw, ErrorBody, aborted, network_error, done, failed, abort_name,
  is_ok, request_json,
}
use anthonyzng_web.Client.Outcome.{Body, request_json-done, request_json-aborted}
use anthonyzng_web.Contact.{name, Values, no_errors}
use anthonyzng_web.Contact.Submission.{
  Form, idle, start, change, Reachable, opened, then_step, typed,
}
use anthonyzng_web.Contact.Submission.Lifetime.{IsConsistent, form-IsConsistent}
use anthonyzng_web.ContentList.{Screen, up, move, busy, move_failed}
use anthonyzng_web.ContentList.Moves.{IsUndone, move-move_failed}
use anthonyzng_web.Draft.{swapped}
use anthonyzng_web.Uploads.{
  UploadMessages, Uploader, Reachable as UploadReachable, at_rest, and_then, picked, pick,
  no_upload,
}

-- A schema that takes a 204 only, an error schema that takes nothing, and no number.
abbrev no_content : Option Json → Option Bool
no_content none = some true
no_content (some _) = none

abbrev no_error : Json → Option ErrorBody
no_error v = none

abbrev no_number : Text → Option ℕ
no_number s = none

abbrev deleted : Response
deleted = record { status = 204; retry_after = none; body = threw none }

request_json-done_example :
    (request_json no_content no_error no_number (answered deleted) ≡ done true) ↔ (
      (r : Response) × (answered deleted ≡ answered r)
      × (is_ok r ≡ true)
      × ((d : Option Json) × Body r d × (no_content d ≡ some true)))
request_json-done_example = request_json-done no_content no_error no_number (answered deleted) true

abbrev cut_off : Response
cut_off = record { status = 200; retry_after = none; body = threw (some abort_name) }

request_json-aborted_example :
    (request_json no_content no_error no_number (answered cut_off) ≡ failed aborted) ↔ (
      (answered cut_off ≡ rejected (some abort_name))
      ⊎ ((r : Response) × (answered cut_off ≡ answered r)
          × (is_ok r ≡ true)
          × (r.status ≢ 204)
          × (r.body ≡ threw (some abort_name))))
request_json-aborted_example = request_json-aborted no_content no_error no_number (answered cut_off)

abbrev filled : Values
filled = record {
  name_value = units "Ann ";
  email_value = units "ann@example.org";
  message_value = units "Hello, how are you?";
}

abbrev ready : Form
ready = record {
  values = filled;
  errors = no_errors;
  attempted = false;
  status = idle;
  turnstile = record { issued = some (units "t", units "dark:en"); widget_key = units "dark:en" };
  pending = none;
}

network_ne : network_error ≢ aborted
network_ne = cc

abbrev named : Form
named = change name (units "Ann") (start (units "dark:en"))

named-Reachable : Reachable (units "dark:en") named
named-Reachable = then_step opened (typed name (units "Ann") (λ h. cc))

form-IsConsistent_example : IsConsistent named
form-IsConsistent_example = form-IsConsistent (units "dark:en") named named-Reachable

-- Rows that are their own slug.
abbrev own : Text → Text
own s = s

abbrev three : List Text
three = units "a" ∷ units "b" ∷ units "c" ∷ []

abbrev listed : Screen Text
listed = record { items = some three; loading = false; moving = none; expired = false }

abbrev shifted : List Text
shifted = units "b" ∷ units "a" ∷ units "c" ∷ []

abbrev shifting : Screen Text
shifting = record { items = some shifted; loading = false; moving = some three; expired = false }

shift : move own 1 up listed ≡ (shifting, some shifted)
unfolding move busy swapped
shift = refl

move-move_failed_example : IsUndone own three (move_failed network_error shifting)
move-move_failed_example =
    move-move_failed own 1 up listed shifting three shifted network_error refl shift network_ne

abbrev ones : ℕ → ℕ
ones n = n

abbrev texts : UploadMessages
texts = record { refusals = []; rejected = units "rejected"; generic = units "generic" }

abbrev any_file : Text → Option Text
any_file f = none

abbrev sending : Uploader Text Text
sending = pick any_file (units "cv.pdf") no_upload

sending-reachable : UploadReachable any_file texts sending
sending-reachable = and_then at_rest (picked (units "cv.pdf"))
