-- ===== src/Validation/Rules.antt =====
-- The rules that a draft has to meet, stated without the error record.
pub mod Checks
pub mod Decide
use anthonyzng_web.Base.{
  ℕ, ◌≤◌, ◌≡◌, ◌≢◌, ◌⊎◌, Bool, true, false, Option, none, some, List, [], ◌∷◌, length, All,
}
use anthonyzng_web.Base.Text.{Text, trim, text_lt}
use anthonyzng_web.Base.Dict.{has}
use anthonyzng_web.Json.{Json, null}
use anthonyzng_web.Draft.{get_at, get_string, get_strings, get_tags, text_length, Tag, noun, term}
use anthonyzng_web.Fields.{
  Locale, en, zh_hant, TextControl, text, textarea, url, month, year, Scheme, web, link, TextField,
  TagsField, BulletsField, FieldConfig, slug_field, text_field, boolean_field, end_field,
  tags_field, bullets_field, tag_max_length, bullets_path, is_visible, is_required,
}
use anthonyzng_web.Slug.{is_slug, reserved_slugs}
use anthonyzng_web.Collections.Types.{Collection}
use anthonyzng_web.Validation.{
  Mode, create, edit, ValidationContext, text_paths, slug_key, end_key, start_key, owns_image,
}
use anthonyzng_web.Validation.Patterns.{is_month, is_year, is_link, is_web_url}

-- A new slug: it has the slug's form, is not reserved, and no row has it.
abbrev pub SlugFits : Text → List Text → Type 0
SlugFits slug existing =
    (is_slug slug ≡ true) × (has slug reserved_slugs ≡ false) × (has slug existing ≡ false)

-- The form that a control asks of a text that is not empty.
abbrev pub FormFits : (Text → Bool) → TextControl → Option Scheme → Text → Type 0
FormFits parses month scheme s = is_month s ≡ true
FormFits parses year scheme s = is_year s ≡ true
FormFits parses url (some link) s = is_link s ≡ true
FormFits parses url _ s = is_web_url parses s ≡ true
FormFits parses _ scheme s = Unit

-- A text, trimmed: empty only where it is not required, else short enough and of the right form.
abbrev pub TextFits : (Text → Bool) → TextField → Json → Text → Type 0
TextFits parses field draft s =
    (s ≡ []) × (is_required field draft ≡ false)
    ⊎ (s ≢ []) × (text_length s ≤ field.max) × FormFits parses field.control field.scheme s

-- A row of a list, trimmed.
abbrev pub RowFits : ℕ → Text → Type 0
RowFits max s = (s ≢ []) × (text_length s ≤ max)

abbrev pub TagFits : Tag → Type 0
TagFits (noun s) = RowFits tag_max_length (trim s)
TagFits (term e z) = RowFits tag_max_length (trim e) × RowFits tag_max_length (trim z)

-- A month that is not before the start, where the start is a month too.
abbrev pub EndFits : (end start : Text) → Type 0
EndFits end start = (is_month end ≡ true) × ((is_month start ≡ false) ⊎ (text_lt end start ≡ false))

abbrev pub BulletsFit : BulletsField → List Text → Type 0
BulletsFit field bullets =
    (field.min ≤ length bullets) × All (λ b. RowFits field.item_max (trim b)) bullets

abbrev pub FieldFits : (Text → Bool) → Json → ValidationContext → FieldConfig → Type 0
FieldFits parses draft context (slug_field _ _) =
    context.mode ≡ create → SlugFits (trim (get_string draft slug_key)) context.existing_slugs
FieldFits parses draft context (text_field f) =
    All (λ path. TextFits parses f draft (trim (get_string draft path))) (text_paths f)
FieldFits parses draft context (boolean_field _ _) = Unit
FieldFits parses draft context (end_field _) =
    (get_at draft end_key ≡ some null)
    ⊎ EndFits (trim (get_string draft end_key)) (trim (get_string draft start_key))
FieldFits parses draft context (tags_field f) =
    (f.min ≤ length (get_tags draft f.name))
    × (length (get_tags draft f.name) ≤ f.max)
    × All TagFits (get_tags draft f.name)
FieldFits parses draft context (bullets_field f) =
    BulletsFit f (get_strings draft (bullets_path en))
    × BulletsFit f (get_strings draft (bullets_path zh_hant))

-- Every field that is shown fits, and a placeholder project has no image.
abbrev pub DraftFits : (Text → Bool) → Collection → Json → ValidationContext → Type 0
DraftFits parses collection draft context =
    All (λ f. is_visible f draft ≡ true → FieldFits parses draft context f) collection.fields
    × (owns_image collection draft context ≡ false)
