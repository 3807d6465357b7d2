-- ===== src/Codes.antt =====
-- frontend/src/admin/totpCode.ts, the wait of frontend/src/admin/retryText.ts and
-- frontend/src/i18n/languages.ts. `lower` is `toLowerCase`, a parameter.
use anthonyzng_web.Base.{
  ℕ, ◌+◌, ◌/◌, ◌≡◌, refl, ◌↔◌, Bool, true, not, ◌&&◌, Option, none, some, [], ◌∷◌, ltb, max, ◌==◌,
  if◌then◌else◌, length, all, keep_if, arith,
}
use anthonyzng_web.Base.Text.{Text, units, text_eq, is_space, is_digit, starts_with}

-- `normalizeCode`
unfoldable pub normalize_code : Text → Text
normalize_code value = keep_if (λ c. not (is_space c)) value

pub data CodeError : Type 0 where
  code_required code_format : CodeError

-- `CODE`
abbrev pub is_code : Text → Bool
is_code s = length s == 6 && all is_digit s

abbrev pub plain_code_error : Text → Option CodeError
plain_code_error [] = some code_required
plain_code_error (c ∷ s) = if is_code (c ∷ s) then none else some code_format

unfoldable pub code_error : Text → Option CodeError
unfolding normalize_code
code_error value = plain_code_error (normalize_code value)

-- How `retryText` names the wait, for whole seconds.
pub data Wait : Type 0 where
  unknown_wait : Wait
  seconds minutes : ℕ → Wait

unfoldable pub retry_wait : Option ℕ → Wait
retry_wait none = unknown_wait
retry_wait (some n) = if ltb n 60 then seconds (max 1 n) else minutes ((n + 59) / 60)

pub data LanguageCode : Type 0 where
  en_code zh_hant_code : LanguageCode

abbrev pub slug_from_language : LanguageCode → Text
slug_from_language en_code = units "en"
slug_from_language zh_hant_code = units "zh-hant"

abbrev pub find_slug : Text → Option LanguageCode
find_slug s =
    if text_eq (units "en") s
    then some en_code
    else if text_eq (units "zh-hant") s
    then some zh_hant_code
    else none

unfoldable pub language_from_slug : (lower : Text → Text) → Option Text → Option LanguageCode
language_from_slug lower none = none
language_from_slug lower (some slug) = find_slug (lower slug)

abbrev pub language_of : Text → LanguageCode
language_of tag = if starts_with (units "zh") tag then zh_hant_code else en_code

unfoldable pub resolve_language : (lower : Text → Text) → Option Text → LanguageCode
resolve_language lower none = en_code
resolve_language lower (some tag) = language_of (lower tag)

plain_code_error-none : (s : Text) → (plain_code_error s ≡ none) ↔ (is_code s ≡ true)
plain_code_error-none [] = (λ h. absurd (cc), λ h. absurd (cc))
plain_code_error-none (c ∷ s) = ground arith

-- A code can be sent exactly where six digits are left of it without its white space.
pub code_error-none :
    (value : Text) → (code_error value ≡ none) ↔ (is_code (normalize_code value) ≡ true)
unfolding code_error
code_error-none value = plain_code_error-none (normalize_code value)

-- A language's address leads back to it, where lower case is left as it is.
pub language_from_slug-slug_from_language :
    (lower : Text → Text) (code : LanguageCode)
    → ((c : LanguageCode) → lower (slug_from_language c) ≡ slug_from_language c)
    → language_from_slug lower (some (slug_from_language code)) ≡ some code
unfolding language_from_slug text_eq
language_from_slug-slug_from_language lower en_code keeps = rw (keeps en_code) refl
language_from_slug-slug_from_language lower zh_hant_code keeps = rw (keeps zh_hant_code) refl
