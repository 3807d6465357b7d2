-- ===== src/Collections/Work.antt =====
-- frontend/src/admin/collections.ts: experience and projects.
use anthonyzng_web.Base.{true, false, none, some, [], ◌∷◌, if◌then◌else◌}
use anthonyzng_web.Base.Text.{units}
use anthonyzng_web.Json.{Json, null, boolean, arr, obj, nil, cons}
use anthonyzng_web.Draft.{get_boolean, trim_deep}
use anthonyzng_web.Fields.{
  textarea, month, when, slug_field, text_field, boolean_field, end_field, tags_field,
  bullets_field,
}
use anthonyzng_web.Collections.Types.{Collection, experience, projects}
use anthonyzng_web.Collections.Build.{
  object, blank, prop, translated, or_blank, clean_tags, both_locales, plain_base, text_of,
  localized_of, hinted, shown_when, web_address, not_placeholder, assign, with_optional,
  paired_bullets,
}

abbrev experience_row : Json → Json
experience_row item = obj (
    object (
      (units "slug", prop item (units "slug"))
      ∷ (units "company", prop item (units "company"))
      ∷ (units "companyUrl", or_blank (prop item (units "companyUrl")))
      ∷ (units "start", prop item (units "start"))
      ∷ (units "end", prop item (units "end"))
      ∷ (units "tech", clean_tags (prop item (units "tech")))
      ∷ (
        units "translations",
        both_locales (λ l. obj (
            object (
              (units "role", translated item l (units "role"))
              ∷ (units "location", translated item l (units "location"))
              ∷ (units "bullets", arr (paired_bullets item l))
              ∷ []))),
      )
      ∷ []))

unfoldable pub experience_collection : Collection
experience_collection = record {
  id = experience;
  sortable = true;
  creatable = true;
  fields =
      text_field (text_of (units "company") 200)
      ∷ text_field
          (hinted (units "companyUrl") (web_address false (text_of (units "companyUrl") 2048)))
      ∷ slug_field (plain_base (units "slug") none) (some (units "company"))
      ∷ text_field (localized_of (units "role") 200)
      ∷ text_field (localized_of (units "location") 200)
      ∷ text_field (record (text_of (units "start") 7) { control = month })
      ∷ end_field (plain_base (units "end") none)
      ∷ tags_field (record {
        base = plain_base (units "tech") (some (units "tags"));
        name = units "tech";
        min = 0;
        max = 50;
      })
      ∷ bullets_field (record {
        base = plain_base (units "bullets") (some (units "bullets"));
        min = 1;
        max = 20;
        item_max = 1000;
      })
      ∷ [];
  empty_draft = obj (
      object (
        (units "slug", blank)
        ∷ (units "company", blank)
        ∷ (units "companyUrl", blank)
        ∷ (units "start", blank)
        ∷ (units "end", blank)
        ∷ (units "tech", arr nil)
        ∷ (
          units "translations",
          both_locales (λ _. obj (
              object (
                (units "role", blank)
                ∷ (units "location", blank)
                ∷ (units "bullets", arr (cons blank nil))
                ∷ []))),
        )
        ∷ []));
  to_draft = experience_row;
  to_payload = with_optional (units "companyUrl");
}

abbrev projects_row : Json → Json
projects_row item = obj (
    object (
      (units "slug", prop item (units "slug"))
      ∷ (units "placeholder", prop item (units "placeholder"))
      ∷ (units "url", or_blank (prop item (units "url")))
      ∷ (units "tech", clean_tags (prop item (units "tech")))
      ∷ (
        units "translations",
        both_locales (λ l. obj (
            object (
              (units "title", or_blank (translated item l (units "title")))
              ∷ (units "summary", or_blank (translated item l (units "summary")))
              ∷ []))),
      )
      ∷ []))

-- A placeholder is a reserved slot: no copy, link or chips.
unfoldable pub projects_payload : Json → Json
projects_payload draft =
    if get_boolean draft (units "placeholder")
    then assign (units "translations")
        (both_locales (λ _. obj (object ((units "title", null) ∷ (units "summary", null) ∷ []))))
        (assign (units "tech") (arr nil) (assign (units "url") null (trim_deep draft)))
    else with_optional (units "url") draft

unfoldable pub projects_collection : Collection
projects_collection = record {
  id = projects;
  sortable = true;
  creatable = true;
  fields =
      boolean_field (plain_base (units "placeholder") (some (units "placeholder")))
        (units "placeholder")
      ∷ text_field (
          shown_when not_placeholder
            (record (localized_of (units "title") 200) { required = when not_placeholder }))
      ∷ slug_field (plain_base (units "slug") none) (some (units "translations.en.title"))
      ∷ text_field (
          shown_when not_placeholder (record (localized_of (units "summary") 2000) {
            control = textarea;
            required = when not_placeholder;
          }))
      ∷ text_field (
          shown_when not_placeholder
            (hinted (units "projectUrl") (web_address false (text_of (units "url") 2048))))
      ∷ tags_field (record {
        base = record {
          label = units "tech";
          hint = some (units "tags");
          visible = some not_placeholder;
        };
        name = units "tech";
        min = 0;
        max = 50;
      })
      ∷ [];
  empty_draft = obj (
      object (
        (units "slug", blank)
        ∷ (units "placeholder", boolean false)
        ∷ (units "url", blank)
        ∷ (units "tech", arr nil)
        ∷ (
          units "translations",
          both_locales (λ _. obj (object ((units "title", blank) ∷ (units "summary", blank) ∷ []))),
        )
        ∷ []));
  to_draft = projects_row;
  to_payload = projects_payload;
}
