-- ===== src/Contact/Submission/Lifetime.antt =====
-- What holds of the contact form at every moment.
use anthonyzng_web.Base.{
  Option-cases, ◌⊎◌, ◌≡◌, ◌≢◌, refl, sym, ap, ◌∙◌, inl, inr, true, false, Option, none, some, ◌==◌,
  if_both, Bool-cases,
}
use anthonyzng_web.Base.Text.{Text}
use anthonyzng_web.Client.{done, failed, Failure, aborted, network_error, http_error, payload_error}
use anthonyzng_web.Turnstile.{current_token}
use anthonyzng_web.Contact.{Values, empty_values, Errors, has_none, server_field_errors}
use anthonyzng_web.Contact.Submission.{
  error, invalid, idle, rate_limited, Status, submitting, success, Form, is_submitting, try_submit,
  submit, change, blur, take_token, lapse, switch_widget, answer, failed_with, or_no_fields,
  start_over, Step, typed, left, token_came, token_lapsed, switched, submitted, was_answered,
  started_over, Reachable, opened, then_step,
}

-- A request in flight shows as such, and the confirmation stands over an emptied form.
abbrev Holds : Form → Type 0
Holds form =
    ((v : Values) → form.pending ≡ some v → form.status ≡ submitting)
    × (form.status ≡ success → form.values ≡ empty_values)

try_submit-Holds :
    (o : Option Text) (e : Errors) (website : Text) (form : Form)
    → form.status ≢ submitting
    → Holds form
    → Holds (try_submit o e website form).0
try_submit-Holds none e website form n (p, q) = (λ v h. absurd (n (p v h)), λ h. absurd (cc))
try_submit-Holds (some t) e website form n (p, q) = elim (Bool-cases (has_none e)) [
  | inl h ↦ rw h (λ v g. refl, λ g. absurd (cc))
  | inr h ↦ rw h (λ v g. absurd (n (p v g)), λ g. absurd (cc))
]

submit-Holds : (website : Text) (form : Form) → Holds form → Holds (submit website form).0
unfolding submit
submit-Holds website form c = elim (Bool-cases (is_submitting form.status)) [
  | inl e ↦ rw e c
  | inr e ↦ rw e (
      try_submit-Holds (current_token form.turnstile) _ website form
        (λ h. let bad : false ≡ true = sym e ∙ ap is_submitting h in cc) c)
]

failed_with-Holds :
    (e : Failure) (v : Values) (form : Form) → Holds form → Holds (failed_with e v form)
failed_with-Holds aborted v form c = c
failed_with-Holds network_error v form c = (λ u h. absurd (cc), λ h. absurd (cc))
failed_with-Holds payload_error v form c = (λ u h. absurd (cc), λ h. absurd (cc))
failed_with-Holds (http_error e) v form c =
    if_both Holds (e.status == 422)
      (if_both Holds (has_none (server_field_errors (or_no_fields e.fields) v))
        (λ u h. absurd (cc), λ h. absurd (cc)) (λ u h. absurd (cc), λ h. absurd (cc)))
      (if_both Holds (e.status == 429) (λ u h. absurd (cc), λ h. absurd (cc))
        (λ u h. absurd (cc), λ h. absurd (cc)))

step-Holds : {a b : Form} → Step a b → Holds a → Holds b
unfolding change blur take_token lapse switch_widget answer start_over
step-Holds (typed f s n) (p, q) = (p, λ h. absurd (n h))
step-Holds (left f s n) (p, q) = (p, λ h. absurd (n h))
step-Holds (token_came token) c = c
step-Holds token_lapsed c = c
step-Holds (switched key) c = c
step-Holds (submitted website n) c = submit-Holds website _ c
step-Holds (was_answered (done _) e) c = (λ u h. absurd (cc), λ h. refl)
step-Holds (was_answered (failed f) e) c = failed_with-Holds f _ _ c
step-Holds (started_over e) (p, q) =
    (λ v h. absurd (let bad : success ≡ submitting = sym e ∙ p v h in cc), λ h. absurd (cc))

form-Holds : (widget : Text) (form : Form) → Reachable widget form → Holds form
form-Holds widget _ opened = (λ v h. absurd (cc), λ h. absurd (cc))
form-Holds widget _ (then_step r s) = step-Holds s (form-Holds widget _ r)

-- A request in flight shows as such, and the confirmation stands over an empty form.
abbrev pub IsConsistent : Form → Type 0
IsConsistent form =
    ((form.pending ≡ none) ⊎ (form.status ≡ submitting))
    × ((form.status ≢ success) ⊎ (form.values ≡ empty_values))

is_success : (s : Status) → (s ≡ success) ⊎ (s ≢ success)
is_success success = inl refl
is_success idle = inr (λ h. absurd (cc))
is_success invalid = inr (λ h. absurd (cc))
is_success submitting = inr (λ h. absurd (cc))
is_success (rate_limited w) = inr (λ h. absurd (cc))
is_success error = inr (λ h. absurd (cc))

-- In every reachable state a request in flight shows as such, and the confirmation stands over a
-- form that is empty.
pub form-IsConsistent : (widget : Text) (form : Form) → Reachable widget form → IsConsistent form
form-IsConsistent widget form r =
    let (waits, clean) = form-Holds widget form r in
    (
      elim (Option-cases form.pending) [ inl p ↦ inl p | inr (v, p) ↦ inr (waits v p) ],
      elim (is_success form.status) [ inl h ↦ inr (clean h) | inr h ↦ inl h ],
    )
