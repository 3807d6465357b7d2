-- ===== src/SignIn/Sends.antt =====
-- When a password or a code is sent, and what.
use anthonyzng_web.Base.{
  ◌≡◌, ◌≢◌, ◌≤◌, refl, sym, ap, ◌∙◌, ◌↔◌, inl, inr, arith, Bool, true, false, Option, none, some,
  [], ◌∷◌, Bool-cases, length,
}
use anthonyzng_web.Base.Text.{Text, trim}
use anthonyzng_web.Turnstile.{current_token}
use anthonyzng_web.Contact.{is_email, is_none}
use anthonyzng_web.SignIn.{
  LoginRequest, Login, email_check, password_check, login_check, found_errors, no_login_errors,
  try_login, login_request, login_unless, submit_login, is_submitting,
}

-- An address of the form that the backend takes.
abbrev pub AddressFits : Text → Type 0
AddressFits s = (s ≢ []) × (length s ≤ 254) × (is_email s ≡ true)

email_check-none : (s : Text) → (is_none (email_check s) ≡ true) ↔ AddressFits s
email_check-none [] = (λ h. absurd (cc), λ (n, _, _). absurd (n refl))
email_check-none (c ∷ s) = ground arith

password_check-none : (s : Text) → (is_none (password_check s) ≡ true) ↔ (s ≢ [])
password_check-none [] = (λ h. absurd (cc), λ n. absurd (n refl))
password_check-none (c ∷ s) = (λ h. cc, λ n. refl)

found_errors-none :
    (token : Text) (l : Login)
    → (no_login_errors (found_errors (some token) l) ≡ true)
      ↔ (AddressFits (trim l.email_value) × (l.password_value ≢ []))
unfolding login_check
found_errors-none token l =
    let (a, a') = email_check-none (trim l.email_value) in
    let (p, p') = password_check-none l.password_value in
    (λ h. (a (ground arith), p (ground arith)), λ (fits, n). rw (a' fits, p' n) refl)

try_login-sends :
    (o : Option Text) (l : Login) (r : LoginRequest)
    → ((try_login o (found_errors o l) l).1 ≡ some r) ↔ (
        (AddressFits (trim l.email_value) × (l.password_value ≢ []))
        × ((token : Text) × (o ≡ some token) × (r ≡ login_request token l)))
try_login-sends none l r = (λ h. absurd (cc), λ (_, (t, p, _)). absurd (cc))
try_login-sends (some token) l r =
    let (to, from) = found_errors-none token l in
    elim (Bool-cases (no_login_errors (found_errors (some token) l))) [
      | inl e ↦ (
        λ h. (
          to e,
          (token, refl, sym (let k : some (login_request token l) ≡ some r = rw e at h in cc)),
        ),
        λ (_, (t, p, q)).
            let here : token ≡ t = cc in rw e (ap some (ap (λ x. login_request x l) here ∙ sym q)),
      )
      | inr e ↦ (
        λ h. absurd (let k : none ≡ some r = rw e at h in cc),
        λ (fits, _). absurd (let bad : false ≡ true = sym e ∙ from fits in cc),
      )
    ]

login_unless-sends :
    (b : Bool) (l : Login) (r : LoginRequest)
    → ((login_unless b l).1 ≡ some r) ↔ (
        (b ≡ false)
        × (AddressFits (trim l.email_value) × (l.password_value ≢ []))
        × ((token : Text) × (current_token l.turnstile ≡ some token) × (r ≡ login_request token l)))
login_unless-sends true l r = (λ h. absurd (cc), λ (h, _, _). absurd (cc))
login_unless-sends false l r =
    let (to, from) = try_login-sends (current_token l.turnstile) l r in
    (λ h. let (a, b) = to h in (refl, a, b), λ (_, a, b). from (a, b))

pub submit_login-sends :
    (l : Login) (r : LoginRequest)
    → ((submit_login l).1 ≡ some r) ↔ (
        (is_submitting l.status ≡ false)
        × (AddressFits (trim l.email_value) × (l.password_value ≢ []))
        × ((token : Text) × (current_token l.turnstile ≡ some token) × (r ≡ login_request token l)))
unfolding submit_login
submit_login-sends l r = login_unless-sends (is_submitting l.status) l r
