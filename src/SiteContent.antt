-- ===== src/SiteContent.antt =====
-- frontend/src/content/useContent.ts: the static content of the active language, and the payload of the
-- API that takes its place. A payload is a JSON value with the language that it says it is for. Each
-- change of language ends the request of the one before and sends another, so one request is awaited.
-- Parameter: `fallback`, the static content of a language. The reading position and the note in the
-- console are left out.
pub mod Shown
use anthonyzng_web.Base.{Bool, true, false, not, ◌&&◌, Option, none, some, if◌then◌else◌}
use anthonyzng_web.Json.{Json, is_same_json}
use anthonyzng_web.Codes.{LanguageCode, en_code, zh_hant_code}
use anthonyzng_web.Client.{Result, done, failed}

pub record Content : Type 0 where
  pub locale : LanguageCode
  pub value : Json

pub record Page : Type 0 where
  pub active : LanguageCode
  pub remote : Option Content
  -- The request of the active language has not been answered.
  pub awaits : Bool

abbrev pub same_language : LanguageCode → LanguageCode → Bool
same_language en_code en_code = true
same_language zh_hant_code zh_hant_code = true
same_language _ _ = false

abbrev pub first_page : LanguageCode → Page
first_page language = record { active = language; remote = none; awaits = true }

-- The effect runs again where the language changes.
unfoldable pub choose_language : LanguageCode → Page → Page
choose_language language p =
    if same_language p.active language then p else record p { active = language; awaits = true }

-- A payload that is not of the active language, or that repeats the static content, changes nothing.
abbrev pub take_payload : (fallback : LanguageCode → Content) → Content → Page → Page
take_payload fallback payload p =
    if not (same_language payload.locale p.active)
    then p
    else if is_same_json payload.value (fallback p.active).value
    then p
    else record p { remote = some payload }

abbrev pub take_result : (fallback : LanguageCode → Content) → Result Content → Page → Page
take_result fallback (done payload) p = take_payload fallback payload p
take_result fallback (failed e) p = p

-- The answer of the API to the request that is awaited
unfoldable pub take_content : (fallback : LanguageCode → Content) → Result Content → Page → Page
take_content fallback r p =
    if p.awaits then take_result fallback r (record p { awaits = false }) else p

abbrev pub shown_or : Content → LanguageCode → Option Content → Content
shown_or static active none = static
shown_or static active (some payload) =
    if same_language payload.locale active then payload else static

-- `content`
unfoldable pub shown_content : (fallback : LanguageCode → Content) → Page → Content
shown_content fallback p = shown_or (fallback p.active) p.active p.remote
