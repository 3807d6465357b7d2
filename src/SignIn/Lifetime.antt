-- ===== src/SignIn/Lifetime.antt =====
-- The life of one sign-in (frontend/src/admin/pages/LoginPage.tsx with LoginCodeStep.tsx): its events,
-- and what holds at every moment. The password's form and the widget are on the page while no code step
-- is; an answer to the password comes while it is being sent.
use anthonyzng_web.Base.{
  not, ◌≡◌, ◌≢◌, refl, sym, ◌∙◌, inl, inr, Bool, true, false, Option, none, some, List, [], if_both,
  Bool-cases, ◌==◌, ◌&&◌, ◌||◌,
}
use anthonyzng_web.Base.Text.{units, text_eq, Text}
use anthonyzng_web.Client.{
  Result, done, failed, Failure, aborted, network_error, payload_error, http_error, HttpError,
}
use anthonyzng_web.Turnstile.{clear, current_token, switch}
use anthonyzng_web.Session.{signed_out}
use anthonyzng_web.SignIn.{
  errors_from, flagged, login_value, is_submitting, keys, found_errors, login_unless, password, has,
  turnstile_failed, no_login_errors, email, reset_token, try_login, failed_login, http_login,
  refused_login, LoginErrors, is_some, LoginField, LoginAnswer, is_signed_in, totp_required, Login,
  idle, submitting, type_login, leave_login, login_token, submit_login, login_answer, code_ended,
}
use anthonyzng_web.SignIn.Code.{
  CodeStep, CodeEnd, stays, signs_in, hands_back, type_code, verify, code_answer,
}

pub data LoginEvent : Login → Login → Type 0 where
  typed :
      {l : Login} (f : LoginField) (s : Text) → l.code_step ≡ none → LoginEvent l (type_login f s l)
  left : {l : Login} (f : LoginField) → l.code_step ≡ none → LoginEvent l (leave_login f l)
  token_came : {l : Login} (token : Text) → l.code_step ≡ none → LoginEvent l (login_token token l)
  token_lapsed :
      {l : Login} → l.code_step ≡ none → LoginEvent l (record l { turnstile = clear l.turnstile })
  switched :
      {l : Login} (key : Text) → LoginEvent l (record l { turnstile = switch key l.turnstile })
  submitted : {l : Login} → l.code_step ≡ none → LoginEvent l (submit_login l).0
  was_answered :
      {l : Login} (r : Result LoginAnswer)
      → l.status ≡ submitting
      → l.code_step ≡ none
      → r ≢ failed aborted
      → LoginEvent l (login_answer r l)
  code_typed :
      {l : Login} {c : CodeStep} (s : Text)
      → l.code_step ≡ some c
      → LoginEvent l (record l { code_step = some (type_code s c) })
  code_sent :
      {l : Login} {c : CodeStep}
      → l.code_step ≡ some c
      → LoginEvent l (record l { code_step = some (verify c).0 })
  code_was_answered :
      {l : Login} {c : CodeStep} (r : Result Text)
      → l.code_step ≡ some c
      → LoginEvent l (code_ended (code_answer r c) l)
  started_over :
      {l : Login} {c : CodeStep}
      → l.code_step ≡ some c
      → LoginEvent l (code_ended (hands_back false) l)

abbrev pub first_login : (widget : Text) → Login
first_login widget = record {
  email_value = [];
  password_value = [];
  errors = record { email_error = none; password_error = none; turnstile_error = none };
  attempted = false;
  status = idle;
  turnstile = record { issued = none; widget_key = widget };
  code_step = none;
  session = signed_out;
}

pub data LoginReached (widget : Text) : Login → Type 0 where
  shown : LoginReached widget (first_login widget)
  then_event : {l m : Login} → LoginReached widget l → LoginEvent l m → LoginReached widget m

-- No password, no token, and no password on its way
abbrev pub HoldsNothing : Login → Type 0
HoldsNothing l = (l.password_value ≡ []) × (l.turnstile.issued ≡ none) × (l.status ≡ idle)

-- While the code step shows, the page holds neither the password nor a token, and sends nothing.
abbrev DropsSecrets : Login → Type 0
DropsSecrets l = (c : CodeStep) → l.code_step ≡ some c → HoldsNothing l

-- An event that shows no code step.
no_step : (l : Login) → l.code_step ≡ none → DropsSecrets l
no_step l h c k = absurd (let bad : none ≡ some c = sym h ∙ k in cc)

-- A write beside the step.
abbrev KeepsStep : Login → Login → Type 0
KeepsStep l m = m.code_step ≡ l.code_step

type_login-KeepsStep : (f : LoginField) (s : Text) (l : Login) → KeepsStep l (type_login f s l)
unfolding type_login
type_login-KeepsStep email s l = if_both (KeepsStep l) (is_some l.errors.email_error) refl refl
type_login-KeepsStep password s l =
    if_both (KeepsStep l) (is_some l.errors.password_error) refl refl

leave_login-KeepsStep : (f : LoginField) (l : Login) → KeepsStep l (leave_login f l)
unfolding leave_login
leave_login-KeepsStep f l =
    if_both (KeepsStep l) (l.attempted || not (text_eq (login_value f l) [])) refl refl

submit_login-KeepsStep : (l : Login) → KeepsStep l (submit_login l).0
unfolding submit_login
submit_login-KeepsStep l = by_status (is_submitting l.status)
  where
    tried : (o : Option Text) (e : LoginErrors) → KeepsStep l (try_login o e l).0
    tried none e = refl
    tried (some token) e = elim (Bool-cases (no_login_errors e)) [
      | inl t ↦ rw t refl
      | inr t ↦ rw t refl
    ]

    by_status : (b : Bool) → KeepsStep l (login_unless b l).0
    by_status true = refl
    by_status false = tried (current_token l.turnstile) (found_errors (current_token l.turnstile) l)

refused_login-KeepsStep : (h : HttpError) (l : Login) → KeepsStep l (refused_login h l)
refused_login-KeepsStep h l = if_both (KeepsStep l) (h.status == 401) refl (
    if_both (KeepsStep l) (h.status == 429) refl (
      if_both (KeepsStep l) (h.status == 400 && text_eq h.code turnstile_failed) refl
        (if_both (KeepsStep l) (h.status == 503) refl refl)))

flagged-KeepsStep : (e : LoginErrors) (l : Login) → KeepsStep l (flagged e l)
flagged-KeepsStep e l = if_both (KeepsStep l) (no_login_errors e) refl refl

http_login-KeepsStep :
    (o : Option (List (Text × Text))) (h : HttpError) (l : Login) → KeepsStep l (http_login o h l)
http_login-KeepsStep none h l = refused_login-KeepsStep h (reset_token l)
http_login-KeepsStep (some fields) h l =
    let kept = flagged-KeepsStep (errors_from fields) l in
    if_both (KeepsStep l) (h.status == 422)
      (if_both (KeepsStep l) (has (units "turnstileToken") (keys fields)) kept kept)
      (refused_login-KeepsStep h (reset_token l))

failed_login-KeepsStep : (e : Failure) (l : Login) → KeepsStep l (failed_login e l)
failed_login-KeepsStep aborted l = refl
failed_login-KeepsStep network_error l = refl
failed_login-KeepsStep payload_error l = refl
failed_login-KeepsStep (http_error h) l = http_login-KeepsStep h.fields h l

-- What the step's end leaves.
code_ended-DropsSecrets :
    (o : CodeEnd) (l : Login) {c : CodeStep}
    → l.code_step ≡ some c
    → DropsSecrets l
    → DropsSecrets (code_ended o l)
code_ended-DropsSecrets (stays s) l {c} here h d k = h c here
code_ended-DropsSecrets (signs_in address) l here h d k = h d k
code_ended-DropsSecrets (hands_back b) l here h d k = absurd (cc)

login_answer-DropsSecrets :
    (r : Result LoginAnswer) (l : Login) → l.code_step ≡ none → DropsSecrets (login_answer r l)
unfolding login_answer clear
login_answer-DropsSecrets (done totp_required) l h c k = (refl, refl, refl)
login_answer-DropsSecrets (done (is_signed_in address)) l h c k =
    no_step (login_answer (done (is_signed_in address)) l) h c k
login_answer-DropsSecrets (failed e) l h c k =
    no_step (failed_login e l) (failed_login-KeepsStep e l ∙ h) c k

event-DropsSecrets : {l m : Login} → LoginEvent l m → DropsSecrets l → DropsSecrets m
unfolding login_token switch
event-DropsSecrets {l} (typed f s n) h = no_step (type_login f s l) (type_login-KeepsStep f s l ∙ n)
event-DropsSecrets {l} (left f n) h = no_step (leave_login f l) (leave_login-KeepsStep f l ∙ n)
event-DropsSecrets {l} (token_came token n) h = no_step (login_token token l) n
event-DropsSecrets {l} (token_lapsed n) h = no_step (record l { turnstile = clear l.turnstile }) n
event-DropsSecrets (switched key) h = h
event-DropsSecrets {l} (submitted n) h = no_step (submit_login l).0 (submit_login-KeepsStep l ∙ n)
event-DropsSecrets {l} (was_answered r s n a) h = login_answer-DropsSecrets r l n
event-DropsSecrets (code_typed {l} {c} s k) h = λ d e. h c k
event-DropsSecrets (code_sent {l} {c} k) h = λ d e. h c k
event-DropsSecrets (code_was_answered {l} {c} r k) h =
    code_ended-DropsSecrets (code_answer r c) l k h
event-DropsSecrets (started_over {l} {c} k) h = code_ended-DropsSecrets (hands_back false) l k h

login-DropsSecrets : (widget : Text) (l : Login) → LoginReached widget l → DropsSecrets l
login-DropsSecrets widget _ shown = no_step (first_login widget) refl
login-DropsSecrets widget _ (then_event r e) = event-DropsSecrets e (login-DropsSecrets widget _ r)

-- At every moment of a sign-in, while the code step shows, the page has dropped the password and the
-- spent token, and no password is on its way.
pub sign_in-HoldsNothing :
    (widget : Text) (l : Login) (c : CodeStep)
    → LoginReached widget l
    → l.code_step ≡ some c
    → HoldsNothing l
sign_in-HoldsNothing widget l c r shows = login-DropsSecrets widget l r c shows
