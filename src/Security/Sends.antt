-- ===== src/Security/Sends.antt =====
-- When a password and a code are sent to turn two-factor sign-in on or off.
use mathlib.Core.Option
use anthonyzng_web.Base.{
  ◌≡◌, ◌≢◌, ◌↔◌, refl, sym, ap, ◌∙◌, inl, inr, Bool, true, false, Bool-cases, Option, none, some,
  [], ◌∷◌, arith,
}
use anthonyzng_web.Base.Text.{Text}
use anthonyzng_web.Codes.{CodeError, is_code, normalize_code, code_error, code_error-none}
use anthonyzng_web.Contact.{is_none}
use anthonyzng_web.SignIn.Code.{flawed}
use anthonyzng_web.Security.{
  ConfirmForm, Confirmation, confirm, confirm_unless, is_confirming, finds_none, found_in,
  confirmation, password_flaw,
}

password_flaw-none : (s : Text) → (is_none (password_flaw s) ≡ true) ↔ (s ≢ [])
password_flaw-none [] = (λ h. absurd (cc), λ n. absurd (n refl))
password_flaw-none (c ∷ s) = (λ h. cc, λ n. refl)

flawed-none : (o : Option CodeError) → (is_none (Option.map flawed o) ≡ true) ↔ (o ≡ none)
flawed-none none = (λ h. refl, λ h. refl)
flawed-none (some e) = (λ h. absurd (cc), λ h. absurd (cc))

-- A password that is not empty, and six digits once the white space is out.
abbrev pub IsComplete : ConfirmForm → Type 0
IsComplete f = (f.password_value ≢ []) × (is_code (normalize_code f.code_value) ≡ true)

found_in-none : (f : ConfirmForm) → (finds_none (found_in f) ≡ true) ↔ IsComplete f
found_in-none f =
    let (p, p') = password_flaw-none f.password_value in
    let (c, c') = flawed-none (code_error f.code_value) in
    let (fits, passes) = code_error-none f.code_value in
    (λ h. (p (ground arith), fits (c (ground arith))), λ (n, fit). rw (p' n, c' (passes fit)) refl)

confirm_unless-sends :
    (b : Bool) (f : ConfirmForm) (c : Confirmation)
    → ((confirm_unless b f).1 ≡ some c) ↔ ((b ≡ false) × IsComplete f × (c ≡ confirmation f))
confirm_unless-sends true f c = (λ h. absurd (cc), λ (h, _, _). absurd (cc))
confirm_unless-sends false f c =
    let (to, from) = found_in-none f in
    elim (Bool-cases (finds_none (found_in f))) [
      | inl e ↦ (
        λ h. (refl, to e, sym (let k : some (confirmation f) ≡ some c = rw e at h in cc)),
        λ (_, _, k). rw e (ap some (sym k)),
      )
      | inr e ↦ (
        λ h. absurd (let k : none ≡ some c = rw e at h in cc),
        λ (_, fits, _). absurd (let bad : false ≡ true = sym e ∙ from fits in cc),
      )
    ]

-- A confirmation is sent exactly where none is on its way, the password is not empty and six digits are left
-- of the code without its white space; the password is sent as it is, with those digits.
pub confirm-sends :
    (f : ConfirmForm) (c : Confirmation)
    → ((confirm f).1 ≡ some c)
      ↔ ((is_confirming f.status ≡ false) × IsComplete f × (c ≡ confirmation f))
unfolding confirm
confirm-sends f c = confirm_unless-sends (is_confirming f.status) f c
