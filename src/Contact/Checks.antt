-- ===== src/Contact/Checks.antt =====
-- The checks of the contact form's fields, stated without the error keys.
use anthonyzng_web.Base.{◌≤◌, ◌≡◌, ◌≢◌, refl, ◌↔◌, true, none, [], ◌∷◌, length, arith}
use anthonyzng_web.Base.Text.{Text, trim}
use anthonyzng_web.Contact.{
  FieldName, name, email, message, limit, message_min, is_email, trimmed_check, validate_field,
}

-- What a trimmed value has to be, counted in UTF-16 units.
abbrev pub ValueFits : FieldName → Text → Type 0
ValueFits name s = (s ≢ []) × (length s ≤ limit name)
ValueFits email s = (s ≢ []) × (length s ≤ limit email) × (is_email s ≡ true)
ValueFits message s = (s ≢ []) × (message_min ≤ length s) × (length s ≤ limit message)

trimmed_check-none : (f : FieldName) (s : Text) → (trimmed_check f s ≡ none) ↔ ValueFits f s
unfolding trimmed_check
trimmed_check-none name [] = (λ h. absurd (cc), λ (n, _). absurd (n refl))
trimmed_check-none email [] = (λ h. absurd (cc), λ (n, _, _). absurd (n refl))
trimmed_check-none message [] = (λ h. absurd (cc), λ (n, _, _). absurd (n refl))
trimmed_check-none name (c ∷ s) = ground arith
trimmed_check-none email (c ∷ s) = ground arith
trimmed_check-none message (c ∷ s) = ground arith

-- A field has no error exactly where its trimmed value fits.
pub validate_field-none :
    (f : FieldName) (value : Text) → (validate_field f value ≡ none) ↔ ValueFits f (trim value)
unfolding validate_field
validate_field-none f value = trimmed_check-none f (trim value)
