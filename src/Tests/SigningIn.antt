-- ===== src/Tests/SigningIn.antt =====
-- Runs of the sign-in.
use anthonyzng_web.Base.{◌≡◌, ◌≢◌, refl, none, some, []}
use anthonyzng_web.Base.Text.{is_space, drop_spaces, text_eq, Text, units, trim}
use anthonyzng_web.Client.{Result, done, failed, aborted, http_error, HttpError}
use anthonyzng_web.SignIn.{
  email, password, LoginAnswer, type_login, login_token, totp_required, login_check, login_request,
  submitting, login_answer, submit_login, Login,
}
use anthonyzng_web.SignIn.Lifetime.{
  token_came, was_answered, submitted, typed, then_event, shown, sign_in-HoldsNothing, LoginReached,
  HoldsNothing, first_login,
}
use anthonyzng_web.SignIn.Spent.{login_answer-waits, SpendsToken, login_event, no_event}
use anthonyzng_web.Turnstile.{on_token, current_token}
use anthonyzng_web.Contact.{has_inner_dot, is_domain, is_email}
use anthonyzng_web.Validation.Patterns.{cut_first, has_space}
use anthonyzng_web.SignIn.Code.{fresh_code}

abbrev first : Login
first = first_login (units "light:en")

-- An address, a password and a token.
abbrev filled : Login
filled = record first {
  email_value = units "a@b.c";
  password_value = units "secret";
  turnstile = record {
    issued = some (units "token", units "light:en");
    widget_key = units "light:en";
  };
}

sent_filled : (submit_login filled).1 ≡ some (login_request (units "token") filled)
unfolding submit_login login_check trim current_token is_email has_space cut_first is_domain
    has_inner_dot text_eq drop_spaces is_space
sent_filled = refl

abbrev wrong_password : HttpError
wrong_password = record {
  status = 401;
  code = units "invalid_credentials";
  message = [];
  fields = none;
  retry_after = none;
}

spends : SpendsToken (http_error wrong_password)
spends = λ fields h s. absurd (cc)

-- The page after the rejected password, and the password typed again there.
abbrev rejected : Login
rejected = login_answer (failed (http_error wrong_password)) filled

rejected-step : rejected.code_step ≡ none
unfolding login_answer
rejected-step = refl

abbrev retyped : Login
retyped = type_login password (units "better") rejected

login_answer-waits_example :
    (current_token retyped.turnstile ≡ none) × ((submit_login retyped).1 ≡ none)
login_answer-waits_example =
    login_answer-waits (http_error wrong_password) filled retyped spends
      (login_event no_event (typed password (units "better") rejected-step) tt)

-- A sign-in that is asked for a code.
abbrev typed_in : Login
typed_in =
    login_token (units "token")
      (type_login password (units "secret") (type_login email (units "a@b.c") first))

abbrev sent_in : Login
sent_in = (submit_login typed_in).0

typed_in-reached : LoginReached (units "light:en") typed_in
unfolding login_token type_login
typed_in-reached =
    then_event
      (then_event (then_event shown (typed email (units "a@b.c") refl))
        (typed password (units "secret") refl))
      (token_came (units "token") refl)

typed_in-step : typed_in.code_step ≡ none
unfolding login_token type_login
typed_in-step = refl

is_sending : (sent_in.status ≡ submitting) × (sent_in.code_step ≡ none)
unfolding submit_login login_token type_login login_check trim current_token on_token is_email
    has_space cut_first is_domain has_inner_dot text_eq drop_spaces is_space
is_sending = (refl, refl)

abbrev right : Result LoginAnswer
right = done totp_required

abbrev dropped : Result LoginAnswer
dropped = failed aborted

no_failure : right ≢ dropped
no_failure = cc

sign_in-HoldsNothing_example : HoldsNothing (login_answer (done totp_required) sent_in)
unfolding login_answer
sign_in-HoldsNothing_example =
    sign_in-HoldsNothing (units "light:en") (login_answer (done totp_required) sent_in) fresh_code
      (then_event (then_event typed_in-reached (submitted typed_in-step))
        (was_answered (done totp_required) is_sending.0 is_sending.1 no_failure))
      refl
