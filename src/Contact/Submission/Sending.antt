-- ===== src/Contact/Submission/Sending.antt =====
-- When the contact form sends, and how it reports what comes back.
use anthonyzng_web.Base.{
  ◌≡◌, ◌≢◌, refl, inl, inr, Bool, true, false, none, ◌==◌, if_both, Bool-cases,
}
use anthonyzng_web.Base.Text.{Text, trim}
use anthonyzng_web.Client.{failed, Failure, aborted, network_error, http_error, payload_error}
use anthonyzng_web.Contact.{FieldName, Values, value_of, Errors, has_none, server_field_errors}
use anthonyzng_web.Contact.Checks.{ValueFits}
use anthonyzng_web.Contact.Submission.{
  Status, invalid, rate_limited, error, Form, Submission, answer, shown, rejected_by_server,
  or_no_fields,
}

-- Every field of the form fits.
abbrev pub AllFit : Values → Type 0
AllFit v = (f : FieldName) → ValueFits f (trim (value_of v f))

-- Failures that the form has to report.
abbrev pub reports : Status → Bool
reports invalid = true
reports (rate_limited _) = true
reports error = true
reports _ = false

-- The form shows a failure, and has no request in flight.
abbrev pub IsReported : Form → Type 0
IsReported form = (reports (shown form) ≡ true) × (form.pending ≡ none)

rejected_by_server-IsReported : (e : Errors) (form : Form) → IsReported (rejected_by_server e form)
unfolding shown
rejected_by_server-IsReported e form = elim (Bool-cases (has_none e)) [
  | inl h ↦ rw h (refl, refl)
  | inr h ↦ rw h (rw (shown, h) refl, refl)
]

-- No failure passes in silence: whatever comes back but an abort, the form shows a failure and has
-- no request in flight.
pub answer-IsReported :
    (e : Failure) (v : Values) (form : Form) → e ≢ aborted → IsReported (answer (failed e) v form)
unfolding answer shown
answer-IsReported aborted v form n = absurd (n refl)
answer-IsReported network_error v form n = (refl, refl)
answer-IsReported payload_error v form n = (refl, refl)
answer-IsReported (http_error e) v form n =
    if_both IsReported (e.status == 422)
      (rejected_by_server-IsReported (server_field_errors (or_no_fields e.fields) v) form)
      (if_both IsReported (e.status == 429) (refl, refl) (refl, refl))
