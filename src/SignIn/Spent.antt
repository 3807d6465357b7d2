-- ===== src/SignIn/Spent.antt =====
-- What is left of a token after a failed sign-in, through the events that may follow.
use anthonyzng_web.Base.{
  [], Option-cases, ◌≡◌, refl, sym, ap, ◌∙◌, inl, inr, Bool, true, false, ◌&&◌, ◌||◌, not, ◌==◌,
  Option, none, some, List, Bool-cases, if_both, ==_iff,
}
use anthonyzng_web.Base.Text.{Text, units, text_eq}
use anthonyzng_web.Base.Dict.{has, keys}
use anthonyzng_web.Client.{
  Result, done, failed, Failure, aborted, network_error, payload_error, http_error, HttpError,
}
use anthonyzng_web.Turnstile.{token_for, current_token, clear, switch}
use anthonyzng_web.SignIn.Lifetime.{
  LoginEvent, typed, left, token_came, token_lapsed, switched, submitted, was_answered, code_typed,
  code_sent, code_was_answered, started_over,
}
use anthonyzng_web.SignIn.Sends.{submit_login-sends}
use anthonyzng_web.SignIn.{
  code_answer, is_submitting, found_errors, password, hands_back, login_unless, totp_required,
  email, signs_in, errors_from, LoginRequest, turnstile_failed, stays, is_signed_in,
  no_login_errors, try_login, login_value, is_some, reset_token, code_ended, LoginAnswer,
  LoginErrors, LoginField, http_login, refused_login, submit_login, leave_login, type_login,
  login_answer, Login,
}
use anthonyzng_web.SignIn.Code.{CodeEnd}

-- The failures that may have spent the token: all but an abort and a 422 that names fields, the token
-- not among them.
abbrev pub SpendsToken : Failure → Type 0
SpendsToken aborted = ⊥
SpendsToken (http_error h) =
    (fields : List (Text × Text))
    → h.fields ≡ some fields
    → h.status ≡ 422
    → has (units "turnstileToken") (keys fields) ≡ true
SpendsToken _ = Unit

abbrev pub HasNoToken : Login → Type 0
HasNoToken l = l.turnstile.issued ≡ none

refused_login-HasNoToken :
    (h : HttpError) (l : Login) → HasNoToken (refused_login h (reset_token l))
unfolding clear
refused_login-HasNoToken h l = if_both HasNoToken (h.status == 401) refl (
    if_both HasNoToken (h.status == 429) refl (
      if_both HasNoToken (h.status == 400 && text_eq h.code turnstile_failed) refl
        (if_both HasNoToken (h.status == 503) refl refl)))

http_login-HasNoToken :
    (o : Option (List (Text × Text))) (h : HttpError) (l : Login)
    → ((fields : List (Text × Text))
        → o ≡ some fields
        → h.status ≡ 422
        → has (units "turnstileToken") (keys fields) ≡ true)
    → HasNoToken (http_login o h l)
unfolding clear
http_login-HasNoToken none h l s = refused_login-HasNoToken h l
http_login-HasNoToken (some fields) h l s = elim (Bool-cases (h.status == 422)) [
  | inl t ↦ rw (t, s fields refl ((==_iff h.status 422).0 t)) refl
  | inr t ↦ rw t (refused_login-HasNoToken h l)
]

login_answer-HasNoToken :
    (e : Failure) (l : Login) → SpendsToken e → HasNoToken (login_answer (failed e) l)
unfolding login_answer clear
login_answer-HasNoToken aborted l s = absurd s
login_answer-HasNoToken network_error l s = refl
login_answer-HasNoToken payload_error l s = refl
login_answer-HasNoToken (http_error h) l s = http_login-HasNoToken h.fields h l s

keep_none_type :
    (f : LoginField) (s : Text) (l : Login) → HasNoToken l → HasNoToken (type_login f s l)
unfolding type_login
keep_none_type email s l h = if_both HasNoToken (is_some l.errors.email_error) h h
keep_none_type password s l h = if_both HasNoToken (is_some l.errors.password_error) h h

keep_none_leave : (f : LoginField) (l : Login) → HasNoToken l → HasNoToken (leave_login f l)
unfolding leave_login
keep_none_leave f l h = if_both HasNoToken (l.attempted || not (text_eq (login_value f l) [])) h h

keep_none_submit : (l : Login) → HasNoToken l → HasNoToken (submit_login l).0
unfolding submit_login
keep_none_submit l h = by_status (is_submitting l.status)
  where
    tried : (o : Option Text) (e : LoginErrors) → HasNoToken (try_login o e l).0
    tried none e = h
    tried (some token) e =
        if_both (λ (x : Login × Option LoginRequest). HasNoToken x.0) (no_login_errors e) h h

    by_status : (b : Bool) → HasNoToken (login_unless b l).0
    by_status true = h
    by_status false = tried (current_token l.turnstile) (found_errors (current_token l.turnstile) l)

keep_none_fields :
    (o : Option (List (Text × Text))) (h : HttpError) (l : Login)
    → HasNoToken l
    → HasNoToken (http_login o h l)
unfolding clear
keep_none_fields none h l k = refused_login-HasNoToken h l
keep_none_fields (some fields) h l k =
    if_both HasNoToken (h.status == 422)
      (if_both HasNoToken (has (units "turnstileToken") (keys fields)) refl
        (if_both HasNoToken (no_login_errors (errors_from fields)) k k))
      (refused_login-HasNoToken h l)

keep_none_answer :
    (r : Result LoginAnswer) (l : Login) → HasNoToken l → HasNoToken (login_answer r l)
unfolding login_answer clear
keep_none_answer (done totp_required) l h = refl
keep_none_answer (done (is_signed_in address)) l h = h
keep_none_answer (failed aborted) l h = h
keep_none_answer (failed network_error) l h = refl
keep_none_answer (failed payload_error) l h = refl
keep_none_answer (failed (http_error e)) l h = keep_none_fields e.fields e l h

keep_none_end : (o : CodeEnd) (l : Login) → HasNoToken l → HasNoToken (code_ended o l)
keep_none_end (stays s) l h = h
keep_none_end (signs_in address) l h = h
keep_none_end (hands_back b) l h = h

-- Any event at a sign-in but a token from the widget
abbrev pub IsTokenless : {l m : Login} → LoginEvent l m → Type 0
IsTokenless (token_came _ _) = ⊥
IsTokenless _ = Unit

event-HasNoToken : {l m : Login} (e : LoginEvent l m) → IsTokenless e → HasNoToken l → HasNoToken m
unfolding switch clear
event-HasNoToken {l} (typed f s n) k h = keep_none_type f s l h
event-HasNoToken {l} (left f n) k h = keep_none_leave f l h
event-HasNoToken {l} (token_came token n) k h = absurd k
event-HasNoToken {l} (token_lapsed n) k h = refl
event-HasNoToken {l} (switched key) k h = h
event-HasNoToken {l} (submitted n) k h = keep_none_submit l h
event-HasNoToken {l} (was_answered r s n a) k h = keep_none_answer r l h
event-HasNoToken {l} (code_typed s c) k h = h
event-HasNoToken {l} (code_sent c) k h = h
event-HasNoToken (code_was_answered {l} {c} r s) k h = keep_none_end (code_answer r c) l h
event-HasNoToken {l} (started_over c) k h = h

-- What may happen at a sign-in, in any order, while the widget issues no token
pub data Tokenless (l : Login) : Login → Type 0 where
  no_event : Tokenless l l
  login_event : {m n : Login} → Tokenless l m → (e : LoginEvent m n) → IsTokenless e → Tokenless l n

Tokenless-HasNoToken : {l m : Login} → HasNoToken l → Tokenless l m → HasNoToken m
Tokenless-HasNoToken h no_event = h
Tokenless-HasNoToken h (login_event r e k) = event-HasNoToken e k (Tokenless-HasNoToken h r)

-- After a failure that may have spent the token, and whatever events but a token from the widget come then: the
-- page has no token, and an attempt to sign in sends nothing.
pub login_answer-waits :
    (e : Failure) (l m : Login)
    → SpendsToken e
    → Tokenless (login_answer (failed e) l) m
    → (current_token m.turnstile ≡ none) × ((submit_login m).1 ≡ none)
login_answer-waits e l m s events =
    let bare : current_token m.turnstile ≡ none =
      unfold current_token in
      (ap (token_for m.turnstile.widget_key)
        (Tokenless-HasNoToken (login_answer-HasNoToken e l s) events)) in
    (
      bare,
      elim (Option-cases (submit_login m).1) [
        | inl n ↦ n
        | inr (r, h) ↦
            let (_, _, (t, p, _)) = (submit_login-sends m r).0 h in
            absurd (let bad : none ≡ some t = sym bare ∙ p in cc)
      ],
    )
