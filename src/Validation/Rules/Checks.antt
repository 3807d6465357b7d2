-- ===== src/Validation/Rules/Checks.antt =====
-- Each check finds no error exactly where its rule holds.
use anthonyzng_web.Base.{
  ℕ, ◌≡◌, refl, sym, ◌∙◌, ◌↔◌, inl, inr, Bool, true, false, Option, none, some, List, [], ◌∷◌,
  arith, ltb, ltb→lt, Bool-cases,
}
use anthonyzng_web.Base.Text.{Text}
use anthonyzng_web.Base.Dict.{insert-ne-nil}
use anthonyzng_web.Json.{Json}
use anthonyzng_web.Draft.{text_length}
use anthonyzng_web.Fields.{
  TextControl, text, textarea, url, month, year, Scheme, web, link, TextField,
}
use anthonyzng_web.Slug.{is_slug}
use anthonyzng_web.Validation.{
  FieldError, FieldErrors, note, slug_error, control_error, trimmed_error, too_long, row_error,
  end_error, error_if,
}
use anthonyzng_web.Validation.Patterns.{is_month}
use anthonyzng_web.Validation.Rules.{SlugFits, FormFits, TextFits, RowFits, EndFits}

-- No error is noted, and there was none before.
pub note-nil :
    (path : Text) (o : Option FieldError) (errors : FieldErrors)
    → (note path o errors ≡ []) ↔ ((o ≡ none) × (errors ≡ []))
note-nil path none errors = (λ h. (refl, h), λ h. h.1)
note-nil path (some e) errors =
    (λ h. absurd (insert-ne-nil path e errors h), λ h. absurd (let bad : some e ≡ none = h.0 in cc))

pub slug_error-none :
    (s : Text) (existing : List Text) → (slug_error s existing ≡ none) ↔ SlugFits s existing
unfolding slug_error is_slug
slug_error-none [] existing = (λ h. absurd (cc), λ h. absurd (let bad : false ≡ true = h.0 in cc))
slug_error-none (c ∷ s) existing = ground arith

pub control_error-none :
    (parses : Text → Bool) (control : TextControl) (scheme : Option Scheme) (s : Text)
    → (control_error parses control scheme s ≡ none) ↔ FormFits parses control scheme s
unfolding control_error
control_error-none parses text scheme s = (λ h. tt, λ h. refl)
control_error-none parses textarea scheme s = (λ h. tt, λ h. refl)
control_error-none parses url none s = ground arith
control_error-none parses url (some web) s = ground arith
control_error-none parses url (some link) s = ground arith
control_error-none parses month scheme s = ground arith
control_error-none parses year scheme s = ground arith

pub trimmed_error-none :
    (parses : Text → Bool) (field : TextField) (s : Text) (draft : Json)
    → (trimmed_error parses field s draft ≡ none) ↔ TextFits parses field draft s
unfolding trimmed_error
trimmed_error-none parses field [] draft = (
  λ h. inl (refl, ground arith),
  λ h. elim h [ inl (_, e) ↦ rw e refl | inr (n, _, _) ↦ absurd (n refl) ],
)
trimmed_error-none parses field (c ∷ s) draft =
    let (to, from) = control_error-none parses field.control field.scheme (c ∷ s) in
    elim (Bool-cases (ltb field.max (text_length (c ∷ s)))) [
      | inl long ↦ (
        λ h. absurd (let bad : some (too_long field.max) ≡ none = rw long at h in cc),
        λ h. elim h [
          | inl (e, _) ↦ absurd (cc)
          | inr (_, short, _) ↦ absurd (omega (arith, ltb→lt _ _ long))
        ],
      )
      | inr short ↦ (
        λ h. inr ((λ e. cc), ground arith, to (rw short at h)),
        λ h. elim h [ inl (e, _) ↦ absurd (cc) | inr (_, _, fits) ↦ rw short (from fits) ],
      )
    ]

pub row_error-none : (max : ℕ) (s : Text) → (row_error max s ≡ none) ↔ RowFits max s
unfolding row_error
row_error-none max [] = (λ h. absurd (cc), λ h. absurd (h.0 refl))
row_error-none max (c ∷ s) = ground arith

is_month_nil : is_month [] ≡ false
unfolding is_month
is_month_nil = refl

pub end_error-none : (end start : Text) → (end_error end start ≡ none) ↔ EndFits end start
unfolding end_error
end_error-none [] start =
    (λ h. absurd (cc), λ h. absurd (let bad : false ≡ true = sym is_month_nil ∙ h.0 in cc))
end_error-none (c ∷ s) start = ground arith

pub error_if-none : (wrong : Bool) (e : FieldError) → (error_if wrong e ≡ none) ↔ (wrong ≡ false)
error_if-none wrong e = ground arith
