-- ===== src/Contact.antt =====
-- frontend/src/components/ContactForm.tsx: the checks of the contact form and its submission.
-- The Turnstile token is the one that `useTurnstile` gives, `none` while there is none; the honeypot
-- (`website`) is read from the page when the form is sent.
pub mod Checks
pub mod Submission
use anthonyzng_web.Base.{
  ℕ, Bool, true, false, ◌&&◌, not, Option, none, some, List, [], ◌∷◌, length, ltb, ◌==◌,
  if◌then◌else◌, all,
}
use anthonyzng_web.Base.Text.{Text, units, text_eq, trim, is_space, dot}
use anthonyzng_web.Base.Dict.{has, keys}
use anthonyzng_web.Client.{Failure, aborted, network_error, http_error, payload_error, HttpError}
use anthonyzng_web.Validation.Patterns.{cut_first, has_space}

pub data FieldName : Type 0 where
  name email message : FieldName

abbrev pub name_key : FieldName → Text
name_key name = units "name"
name_key email = units "email"
name_key message = units "message"

pub record Values : Type 0 where
  pub name_value : Text
  pub email_value : Text
  pub message_value : Text

abbrev pub value_of : Values → FieldName → Text
value_of v name = v.name_value
value_of v email = v.email_value
value_of v message = v.message_value

abbrev pub empty_values : Values
empty_values = record { name_value = []; email_value = []; message_value = [] }

abbrev pub set_value : FieldName → Text → Values → Values
set_value name s v = record v { name_value = s }
set_value email s v = record v { email_value = s }
set_value message s v = record v { message_value = s }

-- The keys under `contactForm.errors` that the checks give.
pub data ErrorKey : Type 0 where
  name_required name_too_long email_required email_too_long email_invalid : ErrorKey
  message_required message_too_short message_too_long field_invalid turnstile_required : ErrorKey

-- `Partial<Record<FieldName | 'turnstile', string>>`: an absent key is `none`.
pub record Errors : Type 0 where
  pub name_error : Option ErrorKey
  pub email_error : Option ErrorKey
  pub message_error : Option ErrorKey
  pub turnstile_error : Option ErrorKey

abbrev pub no_errors : Errors
no_errors = record {
  name_error = none;
  email_error = none;
  message_error = none;
  turnstile_error = none;
}

abbrev pub error_of : Errors → FieldName → Option ErrorKey
error_of e name = e.name_error
error_of e email = e.email_error
error_of e message = e.message_error

-- `setError(name, key)`, where `null` deletes
abbrev pub set_error : FieldName → Option ErrorKey → Errors → Errors
set_error name k e = record e { name_error = k }
set_error email k e = record e { email_error = k }
set_error message k e = record e { message_error = k }

abbrev pub is_none {ℓ} : {A : Type ℓ} → Option A → Bool
is_none none = true
is_none (some _) = false

-- `Object.keys(errors).length === 0`
abbrev pub has_none : Errors → Bool
has_none e =
    is_none e.name_error
    && is_none e.email_error
    && is_none e.message_error
    && is_none e.turnstile_error

-- A dot with at least one unit behind it.
unfoldable pub has_inner_dot : Text → Bool
has_inner_dot [] = false
has_inner_dot (c ∷ []) = false
has_inner_dot (c ∷ d ∷ s) = let rest = has_inner_dot (d ∷ s) in if c == dot then true else rest

-- `[^\s@]+\.[^\s@]+`, for a text without white space: no second `@`, and a dot inside.
unfoldable pub is_domain : Text → Bool
unfolding has_inner_dot
is_domain [] = false
is_domain (c ∷ s) = all (λ d. not (d == b'@')) (c ∷ s) && has_inner_dot s

abbrev pub is_local : Text → Bool
is_local [] = false
is_local (_ ∷ _) = true

abbrev pub is_parts : Option (Text × Text) → Bool
is_parts none = false
is_parts (some (before, after)) = is_local before && is_domain after

-- `EMAIL`: the part before the first `@`, and the domain behind it.
unfoldable pub is_email : Text → Bool
unfolding has_space cut_first is_domain
is_email s = not (has_space s) && is_parts (cut_first b'@' s)

abbrev pub limit : FieldName → ℕ
limit name = 100
limit email = 254
limit message = 5000

abbrev pub message_min : ℕ
message_min = 10

-- `validateField` of a trimmed value
unfoldable pub trimmed_check : FieldName → Text → Option ErrorKey
trimmed_check name [] = some name_required
trimmed_check name (c ∷ s) = if ltb (limit name) (length (c ∷ s)) then some name_too_long else none
trimmed_check email [] = some email_required
trimmed_check email (c ∷ s) =
    if ltb (limit email) (length (c ∷ s))
    then some email_too_long
    else if is_email (c ∷ s)
    then none
    else some email_invalid
trimmed_check message [] = some message_required
trimmed_check message (c ∷ s) =
    if ltb (length (c ∷ s)) message_min
    then some message_too_short
    else if ltb (limit message) (length (c ∷ s))
    then some message_too_long
    else none

unfoldable pub validate_field : FieldName → Text → Option ErrorKey
validate_field f value = trimmed_check f (trim value)

abbrev pub or_invalid : Option ErrorKey → Option ErrorKey
or_invalid none = some field_invalid
or_invalid (some k) = some k

-- The error of one field after a 422 that may name it.
abbrev pub rejection : List (Text × Text) → Values → FieldName → Option ErrorKey
rejection fields v f =
    if has (name_key f) (keys fields) then or_invalid (validate_field f (value_of v f)) else none

unfoldable pub server_field_errors : List (Text × Text) → Values → Errors
server_field_errors fields v = record {
  name_error = rejection fields v name;
  email_error = rejection fields v email;
  message_error = rejection fields v message;
  turnstile_error =
      if has (units "turnstileToken") (keys fields) then some turnstile_required else none;
}

-- The errors that a submission finds before anything is sent.
unfoldable pub submit_errors : Values → Option Text → Errors
submit_errors v token = record {
  name_error = validate_field name v.name_value;
  email_error = validate_field email v.email_value;
  message_error = validate_field message v.message_value;
  turnstile_error = if is_none token then some turnstile_required else none;
}
