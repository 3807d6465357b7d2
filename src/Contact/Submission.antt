-- ===== src/Contact/Submission.antt =====
-- The contact form as a state machine: typing, leaving a field, the widget's tokens, sending and the
-- server's answer (the handlers of frontend/src/components/ContactForm.tsx).
-- `pending` holds the values that the request in flight was sent with: the handler's closure reads
-- them when the answer comes. The page that holds the form stays open, so no request is aborted
-- while the form runs; an abort leaves the form as it is.
pub mod Sending
pub mod Lifetime
use anthonyzng_web.Base.{
  ℕ, ◌≡◌, ◌≢◌, Bool, true, false, Option, none, some, List, [], if◌then◌else◌, ◌==◌,
}
use anthonyzng_web.Base.Text.{Text, trim}
use anthonyzng_web.Client.{
  Result, done, failed, Failure, aborted, network_error, http_error, payload_error, HttpError,
}
use anthonyzng_web.Turnstile.{Turnstile, current_token, on_token, clear, switch}
use anthonyzng_web.Contact.{
  FieldName, name, email, message, Values, value_of, empty_values, set_value, Errors, no_errors,
  error_of, set_error, has_none, is_none, validate_field, server_field_errors, submit_errors,
}

pub data Status : Type 0 where
  idle invalid submitting success : Status
  rate_limited : Option ℕ → Status
  error : Status

pub record Form : Type 0 where
  pub values : Values
  pub errors : Errors
  pub attempted : Bool
  pub status : Status
  pub turnstile : Turnstile
  pub pending : Option Values

-- `ContactSubmission`
pub record Submission : Type 0 where
  pub name_sent : Text
  pub email_sent : Text
  pub message_sent : Text
  pub token_sent : Text
  pub website_sent : Text

unfoldable pub change : FieldName → Text → Form → Form
change f value form = record form {
  values = set_value f value form.values;
  errors =
      if is_none (error_of form.errors f)
      then form.errors
      else set_error f (validate_field f value) form.errors;
}

abbrev pub is_blank : Text → Bool
is_blank [] = true
is_blank _ = false

unfoldable pub blur : FieldName → Text → Form → Form
blur f value form = record form {
  errors =
      if form.attempted
      then set_error f (validate_field f value) form.errors
      else if is_blank (trim value)
      then form.errors
      else set_error f (validate_field f value) form.errors;
}

-- A new token also takes back the widget's message.
unfoldable pub take_token : Text → Form → Form
take_token token form = record form {
  turnstile = on_token token form.turnstile;
  errors = record form.errors { turnstile_error = none };
}

unfoldable pub lapse : Form → Form
lapse form = record form { turnstile = clear form.turnstile }

unfoldable pub switch_widget : Text → Form → Form
switch_widget key form = record form { turnstile = switch key form.turnstile }

abbrev pub submission : Values → (token website : Text) → Submission
submission v token website = record {
  name_sent = trim v.name_value;
  email_sent = trim v.email_value;
  message_sent = trim v.message_value;
  token_sent = token;
  website_sent = website;
}

abbrev pub refused : Errors → Form → Form
refused e form = record form { errors = e; attempted = true; status = invalid }

abbrev pub sent : Errors → Form → Form
sent e form = record form {
  errors = e;
  attempted = true;
  status = submitting;
  pending = some form.values;
}

-- The rest of `onSubmit` up to its request, once the token is read.
abbrev pub try_submit : Option Text → Errors → (website : Text) → Form → Form × Option Submission
try_submit none e website form = (refused e form, none)
try_submit (some token) e website form =
    if has_none e
    then (sent e form, some (submission form.values token website))
    else (refused e form, none)

abbrev pub is_submitting : Status → Bool
is_submitting submitting = true
is_submitting _ = false

unfoldable pub submit : (website : Text) → Form → Form × Option Submission
submit website form =
    if is_submitting form.status
    then (form, none)
    else try_submit (current_token form.turnstile)
        (submit_errors form.values (current_token form.turnstile)) website form

abbrev pub or_no_fields : Option (List (Text × Text)) → List (Text × Text)
or_no_fields none = []
or_no_fields (some fields) = fields

-- A 422: the fields it names that the visitor can see, or a general error.
abbrev pub rejected_by_server : Errors → Form → Form
rejected_by_server e form =
    if has_none e
    then record form { status = error; pending = none }
    else record form { errors = e; status = invalid; pending = none }

abbrev pub failed_with : Failure → Values → Form → Form
failed_with aborted v form = form
failed_with (http_error e) v form =
    if e.status == 422
    then rejected_by_server (server_field_errors (or_no_fields e.fields) v) form
    else if e.status == 429
    then record form { status = rate_limited e.retry_after; pending = none }
    else record form { status = error; turnstile = clear form.turnstile; pending = none }
failed_with _ v form = record form {
  status = error;
  turnstile = clear form.turnstile;
  pending = none;
}

-- The answer to the request that was sent with the values.
unfoldable pub answer : Result {0} Unit → Values → Form → Form
answer (done _) v form = record form { values = empty_values; status = success; pending = none }
answer (failed e) v form = failed_with e v form

unfoldable pub start_over : Form → Form
start_over form = record form {
  errors = no_errors;
  attempted = false;
  turnstile = clear form.turnstile;
  status = idle;
}

abbrev pub start : (widget : Text) → Form
start widget = record {
  values = empty_values;
  errors = no_errors;
  attempted = false;
  status = idle;
  turnstile = record { issued = none; widget_key = widget };
  pending = none;
}

-- `shown`: "check the highlighted fields" lives as long as a field is highlighted.
unfoldable pub shown : Form → Status
shown form = elim form.status [ invalid ↦ if has_none form.errors then idle else invalid | s ↦ s ]

-- One event. The fields are on the page while it does not show the confirmation, which has the
-- button that starts over; an answer comes to the request in flight.
pub data Step : Form → Form → Type 0 where
  typed : {a : Form} (f : FieldName) (s : Text) → a.status ≢ success → Step a (change f s a)
  left : {a : Form} (f : FieldName) (s : Text) → a.status ≢ success → Step a (blur f s a)
  token_came : {a : Form} (token : Text) → Step a (take_token token a)
  token_lapsed : {a : Form} → Step a (lapse a)
  switched : {a : Form} (key : Text) → Step a (switch_widget key a)
  submitted : {a : Form} (website : Text) → a.status ≢ success → Step a (submit website a).0
  was_answered :
      {a : Form} (r : Result {0} Unit) {v : Values} → a.pending ≡ some v → Step a (answer r v a)
  started_over : {a : Form} → a.status ≡ success → Step a (start_over a)

pub data Reachable (widget : Text) : Form → Type 0 where
  opened : Reachable widget (start widget)
  then_step : {a b : Form} → Reachable widget a → Step a b → Reachable widget b
