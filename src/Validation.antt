-- ===== src/Validation.antt =====
-- frontend/src/admin/validation.ts: the checks before a save, and the slots that can show an error.
-- `parses` stands for the browser's URL parser.
pub mod Patterns
pub mod ErrorSlots
pub mod Rules
use anthonyzng_web.Base.{
  ℕ, zero, suc, ◌+◌, Bool, true, false, not, ◌&&◌, ◌||◌, Option, none, some, List, [], ◌∷◌, ◌++◌,
  length, leb, ltb, if◌then◌else◌,
}
use anthonyzng_web.Base.Text.{Text, units, trim, text_eq, text_lt, dot, show_nat}
use anthonyzng_web.Base.Dict.{insert, has}
use anthonyzng_web.Json.{Json, null}
use anthonyzng_web.Draft.{
  get_at, get_string, get_boolean, get_strings, get_tags, text_length, Tag, noun, term, en_key,
  zh_key,
}
use anthonyzng_web.Fields.{
  Locale, en, zh_hant, locales, locale_key, TextControl, text, textarea, url, month, year, Scheme,
  web, link, TextField, TagsField, BulletsField, FieldConfig, slug_field, text_field, boolean_field,
  end_field, tags_field, bullets_field, tag_max_length, localized_path, bullets_path, is_visible,
  is_required,
}
use anthonyzng_web.Slug.{is_slug, reserved_slugs}
use anthonyzng_web.Collections.Types.{Collection, ImageRef, is_projects}
use Patterns.{is_month, is_year, is_link, is_web_url}

-- A message for one control: a key under `errors.*` with its values.
pub data FieldError : Type 0 where
  required slug_pattern slug_taken month_form year_form link_form web_url : FieldError
  end_required end_before_start bullets_too_few placeholder_image server_rejected : FieldError
  slug_reserved : Text → FieldError
  too_long tags_too_few tags_too_many : ℕ → FieldError

abbrev pub FieldErrors : Type 0
FieldErrors = List (Text × FieldError)

pub data Mode : Type 0 where
  create edit : Mode

pub record ValidationContext : Type 0 where
  pub mode : Mode
  pub existing_slugs : List Text
  pub image : Option ImageRef

-- `if (error) errors[path] = error`
abbrev pub note : Text → Option FieldError → FieldErrors → FieldErrors
note path none errors = errors
note path (some e) errors = insert path e errors

unfoldable pub slug_error : Text → List Text → Option FieldError
slug_error [] existing = some required
slug_error (c ∷ s) existing =
    if not (is_slug (c ∷ s))
    then some slug_pattern
    else if has (c ∷ s) reserved_slugs
    then some (slug_reserved (c ∷ s))
    else if has (c ∷ s) existing
    then some slug_taken
    else none

module _ (parses : Text → Bool) where
  -- The `switch` of `textError`, on a trimmed text.
  unfoldable pub control_error : TextControl → Option Scheme → Text → Option FieldError
  control_error month scheme s = if is_month s then none else some month_form
  control_error year scheme s = if is_year s then none else some year_form
  control_error url (some link) s = if is_link s then none else some link_form
  control_error url _ s = if is_web_url parses s then none else some web_url
  control_error _ scheme s = none

  -- `textError` after the trimming
  unfoldable pub trimmed_error : TextField → Text → Json → Option FieldError
  trimmed_error field [] draft = if is_required field draft then some required else none
  trimmed_error field (c ∷ s) draft =
      if ltb field.max (text_length (c ∷ s))
      then some (too_long field.max)
      else control_error field.control field.scheme (c ∷ s)

  unfoldable pub text_error : TextField → Text → Json → Option FieldError
  text_error field value draft = trimmed_error field (trim value) draft

-- A text of a list row, trimmed: required, and at most `max` code points.
unfoldable pub row_error : ℕ → Text → Option FieldError
row_error max [] = some required
row_error max (c ∷ s) = if ltb max (text_length (c ∷ s)) then some (too_long max) else none

unfoldable pub chip_error : Text → Option FieldError
chip_error value = row_error tag_max_length (trim value)

-- `${path}.${index}`
abbrev pub row_path : Text → ℕ → Text
row_path path index = path ++ dot ∷ show_nat index

abbrev pub cell_path : Text → Locale → Text
cell_path path locale = path ++ dot ∷ locale_key locale

abbrev pub tag_errors_at : Text → Tag → FieldErrors → FieldErrors
tag_errors_at path (noun s) errors = note path (chip_error s) errors
tag_errors_at path (term e z) errors =
    note (cell_path path zh_hant) (chip_error z) (note (cell_path path en) (chip_error e) errors)

unfoldable pub chip_errors : Text → ℕ → List Tag → FieldErrors → FieldErrors
chip_errors name index [] errors = errors
chip_errors name index (tag ∷ tags) errors =
    chip_errors name (suc index) tags (tag_errors_at (row_path name index) tag errors)

abbrev pub error_if : Bool → FieldError → Option FieldError
error_if wrong e = if wrong then some e else none

unfoldable pub tag_count_errors : TagsField → ℕ → FieldErrors → FieldErrors
tag_count_errors field count errors =
    note field.name (error_if (ltb field.max count) (tags_too_many field.max))
      (note field.name (error_if (ltb count field.min) (tags_too_few field.min)) errors)

unfoldable pub tag_errors : TagsField → Json → FieldErrors → FieldErrors
tag_errors field draft errors =
    chip_errors field.name 0 (get_tags draft field.name)
      (tag_count_errors field (length (get_tags draft field.name)) errors)

unfoldable pub bullet_errors : ℕ → Text → ℕ → List Text → FieldErrors → FieldErrors
bullet_errors max path index [] errors = errors
bullet_errors max path index (bullet ∷ rest) errors =
    bullet_errors max path (suc index) rest
      (note (row_path path index) (row_error max (trim bullet)) errors)

unfoldable pub locale_bullet_errors : BulletsField → Json → Locale → FieldErrors → FieldErrors
locale_bullet_errors field draft locale errors =
    bullet_errors field.item_max (bullets_path locale) 0 (get_strings draft (bullets_path locale)) (
      note (bullets_path locale)
        (error_if (ltb (length (get_strings draft (bullets_path locale))) field.min)
          bullets_too_few)
        errors)

-- The `end` case after the current role is ruled out, on the trimmed months.
unfoldable pub end_error : (end start : Text) → Option FieldError
end_error [] start = some end_required
end_error (c ∷ s) start =
    if not (is_month (c ∷ s))
    then some month_form
    else if is_month start && text_lt (c ∷ s) start
    then some end_before_start
    else none

abbrev pub end_key : Text
end_key = units "end"

abbrev pub start_key : Text
start_key = units "start"

abbrev pub slug_key : Text
slug_key = units "slug"

abbrev pub end_check : Option Json → Json → Option FieldError
end_check (some null) draft = none
end_check _ draft = end_error (trim (get_string draft end_key)) (trim (get_string draft start_key))

-- `field.localized ? LOCALES.map(…) : [field.name]`
abbrev pub text_paths : TextField → List Text
text_paths field =
    if field.localized
    then localized_path en field.name ∷ localized_path zh_hant field.name ∷ []
    else field.name ∷ []

abbrev pub slug_errors : Mode → ValidationContext → Json → FieldErrors → FieldErrors
slug_errors create context draft errors =
    note slug_key (slug_error (trim (get_string draft slug_key)) context.existing_slugs) errors
slug_errors edit context draft errors = errors

module _ (parses : Text → Bool) where
  unfoldable pub path_errors : TextField → Json → List Text → FieldErrors → FieldErrors
  path_errors field draft [] errors = errors
  path_errors field draft (path ∷ paths) errors =
      path_errors field draft paths
        (note path (text_error parses field (get_string draft path) draft) errors)

  -- The `switch` of `validateDraft`.
  unfoldable pub field_errors : Json → ValidationContext → FieldConfig → FieldErrors → FieldErrors
  field_errors draft context (slug_field _ _) errors = slug_errors context.mode context draft errors
  field_errors draft context (text_field f) errors = path_errors f draft (text_paths f) errors
  field_errors draft context (boolean_field _ _) errors = errors
  field_errors draft context (end_field _) errors =
      note end_key (end_check (get_at draft end_key) draft) errors
  field_errors draft context (tags_field f) errors = tag_errors f draft errors
  field_errors draft context (bullets_field f) errors =
      locale_bullet_errors f draft zh_hant (locale_bullet_errors f draft en errors)

  unfoldable pub all_errors :
      Json → ValidationContext → List FieldConfig → FieldErrors → FieldErrors
  all_errors draft context [] errors = errors
  all_errors draft context (f ∷ fs) errors =
      all_errors draft context fs
        (if is_visible f draft then field_errors draft context f errors else errors)

abbrev pub placeholder_key : Text
placeholder_key = units "placeholder"

abbrev pub is_some {ℓ} : {A : Type ℓ} → Option A → Bool
is_some none = false
is_some (some _) = true

-- The last check of `validateDraft`: a placeholder project owns no image.
abbrev pub owns_image : Collection → Json → ValidationContext → Bool
owns_image collection draft context =
    is_projects collection.id && get_boolean draft placeholder_key && is_some context.image

unfoldable pub validate_draft : (Text → Bool) → Collection → Json → ValidationContext → FieldErrors
validate_draft parses collection draft context =
    let errors = all_errors parses draft context collection.fields [] in
    if owns_image collection draft context
    then insert placeholder_key placeholder_image errors
    else errors
