-- ===== src/Collections/Profile.antt =====
-- frontend/src/admin/collections.ts: education, certifications, hero roles, languages, contact links
-- and site texts.
use anthonyzng_web.Base.{ℕ, true, false, none, some, [], ◌∷◌}
use anthonyzng_web.Base.Text.{Text, units}
use anthonyzng_web.Json.{Json, boolean, obj}
use anthonyzng_web.Draft.{trim_deep}
use anthonyzng_web.Fields.{textarea, year, url, link, slug_field, text_field, boolean_field}
use anthonyzng_web.Collections.Types.{
  CollectionId, Collection, education, certifications, hero_roles, languages, contact_links,
  site_texts,
}
use anthonyzng_web.Collections.Build.{
  object, blank, prop, translated, or_blank, both_locales, plain_base, text_of, localized_of,
  labelled, hinted, web_address, with_optional,
}

-- One translated text, under its name in both locales.
abbrev blank_text : Text → Json
blank_text name = both_locales (λ _. obj (object ((name, blank) ∷ [])))

abbrev text_row : Json → Text → Json
text_row item name = both_locales (λ l. obj (object ((name, translated item l name) ∷ [])))

unfoldable pub education_collection : Collection
education_collection = record {
  id = education;
  sortable = true;
  creatable = true;
  fields =
      text_field (text_of (units "school") 200)
      ∷ text_field (
          labelled (units "schoolUrl")
            (hinted (units "schoolUrl") (web_address false (text_of (units "url") 2048))))
      ∷ slug_field (plain_base (units "slug") none) (some (units "school"))
      ∷ text_field (localized_of (units "degree") 200)
      ∷ text_field (record (text_of (units "year") 4) { control = year })
      ∷ [];
  empty_draft = obj (
      object (
        (units "slug", blank)
        ∷ (units "school", blank)
        ∷ (units "url", blank)
        ∷ (units "year", blank)
        ∷ (units "translations", blank_text (units "degree"))
        ∷ []));
  to_draft = λ item. obj (
      object (
        (units "slug", prop item (units "slug"))
        ∷ (units "school", prop item (units "school"))
        ∷ (units "url", or_blank (prop item (units "url")))
        ∷ (units "year", prop item (units "year"))
        ∷ (units "translations", text_row item (units "degree"))
        ∷ []));
  to_payload = with_optional (units "url");
}

unfoldable pub certifications_collection : Collection
certifications_collection = record {
  id = certifications;
  sortable = true;
  creatable = true;
  fields =
      text_field (labelled (units "certificationName") (text_of (units "name") 200))
      ∷ text_field (
          labelled (units "certificationUrl")
            (hinted (units "certificationUrl") (web_address false (text_of (units "url") 2048))))
      ∷ slug_field (plain_base (units "slug") none) (some (units "name"))
      ∷ boolean_field (plain_base (units "inProgress") none) (units "inProgress")
      ∷ [];
  empty_draft = obj (
      object (
        (units "slug", blank)
        ∷ (units "name", blank)
        ∷ (units "url", blank)
        ∷ (units "inProgress", boolean false)
        ∷ []));
  to_draft = λ item. obj (
      object (
        (units "slug", prop item (units "slug"))
        ∷ (units "name", prop item (units "name"))
        ∷ (units "url", or_blank (prop item (units "url")))
        ∷ (units "inProgress", prop item (units "inProgress"))
        ∷ []));
  to_payload = with_optional (units "url");
}

-- The collections of one translated text and a slug suggested from it.
abbrev titled : CollectionId → Text → Text → Text → ℕ → Collection
titled id name label source max = record {
  id = id;
  sortable = true;
  creatable = true;
  fields =
      text_field (labelled label (localized_of name max))
      ∷ slug_field (plain_base (units "slug") none) (some source)
      ∷ [];
  empty_draft = obj (object ((units "slug", blank) ∷ (units "translations", blank_text name) ∷ []));
  to_draft = λ item. obj (
      object (
        (units "slug", prop item (units "slug"))
        ∷ (units "translations", text_row item name)
        ∷ []));
  to_payload = trim_deep;
}

unfoldable pub hero_roles_collection : Collection
hero_roles_collection =
    titled hero_roles (units "text") (units "roleText") (units "translations.en.text") 200

unfoldable pub languages_collection : Collection
languages_collection =
    titled languages (units "name") (units "languageName") (units "translations.en.name") 100

unfoldable pub contact_links_collection : Collection
contact_links_collection = record {
  id = contact_links;
  sortable = true;
  creatable = true;
  fields =
      text_field (labelled (units "linkLabel") (localized_of (units "label") 100))
      ∷ slug_field (plain_base (units "slug") none) (some (units "translations.en.label"))
      ∷ text_field (
          hinted (units "href")
            (record (text_of (units "href") 2048) { control = url; scheme = some link }))
      ∷ text_field (hinted (units "display") (text_of (units "display") 200))
      ∷ [];
  empty_draft = obj (
      object (
        (units "slug", blank)
        ∷ (units "href", blank)
        ∷ (units "display", blank)
        ∷ (units "translations", blank_text (units "label"))
        ∷ []));
  to_draft = λ item. obj (
      object (
        (units "slug", prop item (units "slug"))
        ∷ (units "href", prop item (units "href"))
        ∷ (units "display", prop item (units "display"))
        ∷ (units "translations", text_row item (units "label"))
        ∷ []));
  to_payload = trim_deep;
}

-- A fixed set of rows: edited, never added.
unfoldable pub site_texts_collection : Collection
site_texts_collection = record {
  id = site_texts;
  sortable = false;
  creatable = false;
  fields =
      slug_field (plain_base (units "slug") none) none
      ∷ text_field (
          hinted (units "siteText")
            (record (localized_of (units "text") 2000) { control = textarea }))
      ∷ [];
  empty_draft =
      obj (object ((units "slug", blank) ∷ (units "translations", blank_text (units "text")) ∷ []));
  to_draft = λ item. obj (
      object (
        (units "slug", prop item (units "slug"))
        ∷ (units "translations", text_row item (units "text"))
        ∷ []));
  to_payload = trim_deep;
}
