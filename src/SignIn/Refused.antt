-- ===== src/SignIn/Refused.antt =====
-- What a failed sign-in shows.
use anthonyzng_web.Base.{
  ◌≡◌, ◌≢◌, refl, inl, inr, Bool, true, false, ◌&&◌, ◌==◌, Option, none, some, List, Bool-cases,
  if_both,
}
use anthonyzng_web.Base.Text.{Text, units, text_eq}
use anthonyzng_web.Base.Dict.{has, keys}
use anthonyzng_web.Client.{
  failed, Failure, aborted, network_error, payload_error, http_error, HttpError,
}
use anthonyzng_web.SignIn.{
  Login, LoginStatus, LoginErrors, submitting, idle, reset_token, flagged, refused_login,
  http_login, login_answer, login_shown, errors_from, no_login_errors, turnstile_failed,
}

abbrev pub reports_login : LoginStatus → Bool
reports_login idle = false
reports_login submitting = false
reports_login _ = true

-- The page shows a failure, and a password can be sent again.
abbrev pub IsShown : Login → Type 0
IsShown l = reports_login (login_shown l) ≡ true

refused_login-IsShown : (h : HttpError) (l : Login) → IsShown (refused_login h l)
unfolding login_shown
refused_login-IsShown h l = if_both IsShown (h.status == 401) refl (
    if_both IsShown (h.status == 429) refl (
      if_both IsShown (h.status == 400 && text_eq h.code turnstile_failed) refl
        (if_both IsShown (h.status == 503) refl refl)))

flagged-IsShown : (e : LoginErrors) (l : Login) → IsShown (flagged e l)
unfolding login_shown
flagged-IsShown e l = elim (Bool-cases (no_login_errors e)) [
  | inl t ↦ rw t refl
  | inr t ↦ rw t (rw (login_shown, t) refl)
]

reset_token-IsShown : (l : Login) → IsShown l → IsShown (reset_token l)
unfolding login_shown
reset_token-IsShown l h = h

http_login-IsShown :
    (o : Option (List (Text × Text))) (h : HttpError) (l : Login) → IsShown (http_login o h l)
http_login-IsShown none h l = refused_login-IsShown h (reset_token l)
http_login-IsShown (some fields) h l =
    let shown = flagged-IsShown (errors_from fields) l in
    if_both IsShown (h.status == 422)
      (if_both IsShown (has (units "turnstileToken") (keys fields))
        (reset_token-IsShown (flagged (errors_from fields) l) shown) shown)
      (refused_login-IsShown h (reset_token l))

-- No failed sign-in passes in silence: whatever fails but an abort, the page shows a failure and is no
-- longer sending.
pub login_answer-IsShown :
    (e : Failure) (l : Login) → e ≢ aborted → IsShown (login_answer (failed e) l)
unfolding login_answer login_shown
login_answer-IsShown aborted l n = absurd (n refl)
login_answer-IsShown network_error l n = refl
login_answer-IsShown payload_error l n = refl
login_answer-IsShown (http_error h) l n = http_login-IsShown h.fields h l
