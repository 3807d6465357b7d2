-- ===== src/Tests/Home.antt =====
-- Runs of the home page's parts, of an untouched row and of the controls of a form.
use anthonyzng_web.Fields.{localized_path}
use anthonyzng_web.Controls.OnScreen.{validate_draft-IsShown, IsShown}
use anthonyzng_web.Base.{Bool, ◌≡◌, refl, true, false, none, some, List, [], ◌∷◌, ◌++◌, ℕ, arith}
use anthonyzng_web.Reading.Anchor.{refreshed, refresh_began, scroll_ended, LayoutEvent, Anchored}
use anthonyzng_web.LanguageSwitch.{slash, switch_path}
use anthonyzng_web.Base.Text.{is_space, text_eq, split_dot, drop_spaces, trim, units, Text}
use anthonyzng_web.Collections.Rows.{experience_row, RoleText, ExperienceItem}
use anthonyzng_web.Collections.{collection_of}
use anthonyzng_web.Validation.{
  control_error, trimmed_error, text_error, path_errors, slug_error, field_errors, all_errors,
  required, validate_draft, slug_key, create, ValidationContext,
}
use anthonyzng_web.Json.{find, Json}
use anthonyzng_web.Base.Dict.{insert, lookup}
use anthonyzng_web.Codes.{slug_from_language, en_code, zh_hant_code}
use anthonyzng_web.Collections.Types.{languages, experience}
use anthonyzng_web.Draft.{child, walk, get_at, get_string, trim_deep, term, noun}
use anthonyzng_web.Collections.Rows.Values.{write_json, row_json}
use anthonyzng_web.LanguageSwitch.Back.{switch_path-back}
use anthonyzng_web.Collections.Rows.Untouched.{to_payload-to_draft}
use anthonyzng_web.Collections.Profile.{languages_collection}
use anthonyzng_web.Controls.{form_controls}
use anthonyzng_web.Fields.{is_required, is_visible}

abbrev read_place : Anchored ℕ
read_place = record { anchor = some 3; refreshing = false; rebuilding = false; restored = [] }

abbrev while_rebuilt : List (LayoutEvent ℕ)
while_rebuilt = scroll_ended (some 0) ∷ refresh_began ∷ refreshed (some 0) ∷ []

switch_path-back_example :
    let there = switch_path zh_hant_code en_code (units "/EN/privacy") in
    (there ≡ slash ∷ slug_from_language zh_hant_code ++ units "/privacy")
    × (switch_path en_code zh_hant_code there
        ≡ slash ∷ slug_from_language en_code ++ units "/privacy")
switch_path-back_example =
    switch_path-back en_code zh_hant_code (units "EN") (units "/privacy") refl refl

-- A role with a chip of each kind and a bullet in each language
abbrev role_text : Text → RoleText
role_text s = record { role = s; location = units " Vienna"; bullets = s ∷ [] }

abbrev job : ExperienceItem
job = record {
  slug = units "acme";
  sort_order = 7;
  company = units "Acme ";
  company_url = none;
  start = units "2024-01";
  end_month = none;
  tech = noun (units "React") ∷ term (units "Data") (units "Daten ") ∷ [];
  translations = record { in_en = role_text (units "Engineer"); in_zh = role_text (units "Z") };
  updated_at = units "now";
}

to_payload-to_draft_example :
    (collection_of experience).to_payload
      ((collection_of experience).to_draft (row_json (experience_row job)))
    ≡ trim_deep (write_json (experience_row job))
to_payload-to_draft_example =
    to_payload-to_draft experience (experience_row job) (tt, (omega arith, refl))

abbrev parses_all : Text → Bool
parses_all s = true

abbrev new_row : ValidationContext
new_row = record { mode = create; existing_slugs = []; image = none }

abbrev no_language : Json
no_language = (collection_of languages).empty_draft

no_slug :
    lookup slug_key (validate_draft parses_all (collection_of languages) no_language new_row)
    ≡ some required
unfolding lookup validate_draft collection_of languages_collection all_errors is_visible
    field_errors slug_error path_errors text_error trimmed_error trim drop_spaces get_string get_at
    walk split_dot child find text_eq insert is_required is_space control_error localized_path
no_slug = refl

validate_draft-IsShown_example :
    IsShown
      (validate_draft parses_all (collection_of languages) no_language new_row)
      slug_key
      (form_controls no_language create (collection_of languages).fields)
validate_draft-IsShown_example =
    validate_draft-IsShown parses_all languages no_language new_row slug_key required no_slug
