-- ===== src/Collections/Showcase.antt =====
-- frontend/src/admin/collections.ts: skill groups, tools and the archive.
use anthonyzng_web.Base.{true, false, Option, none, some, [], ◌∷◌}
use anthonyzng_web.Base.Text.{units}
use anthonyzng_web.Json.{Json, null, str, arr, obj, nil, end, member}
use anthonyzng_web.Draft.{trim_deep, child}
use anthonyzng_web.Fields.{locale_key, textarea, month, always, slug_field, text_field, tags_field}
use anthonyzng_web.Collections.Types.{Collection, skill_groups, tools, archive}
use anthonyzng_web.Collections.Build.{
  object, blank, prop, translated, or_blank, clean_tags, both_locales, plain_base, text_of,
  localized_of, labelled, hinted, web_address, assign, null_if_blank,
}

unfoldable pub skill_groups_collection : Collection
skill_groups_collection = record {
  id = skill_groups;
  sortable = true;
  creatable = true;
  fields =
      text_field (labelled (units "groupLabel") (localized_of (units "label") 100))
      ∷ slug_field (plain_base (units "slug") none) (some (units "translations.en.label"))
      ∷ tags_field (record {
        base = plain_base (units "skills") (some (units "tags"));
        name = units "items";
        min = 1;
        max = 50;
      })
      ∷ [];
  empty_draft = obj (
      object (
        (units "slug", blank)
        ∷ (units "items", arr nil)
        ∷ (units "translations", both_locales (λ _. obj (object ((units "label", blank) ∷ []))))
        ∷ []));
  to_draft = λ item. obj (
      object (
        (units "slug", prop item (units "slug"))
        ∷ (units "items", clean_tags (prop item (units "items")))
        ∷ (
          units "translations",
          both_locales
              (λ l. obj (object ((units "label", translated item l (units "label")) ∷ []))),
        )
        ∷ []));
  to_payload = trim_deep;
}

unfoldable pub tools_collection : Collection
tools_collection = record {
  id = tools;
  sortable = true;
  creatable = true;
  fields =
      text_field (labelled (units "toolName") (text_of (units "name") 200))
      ∷ slug_field (plain_base (units "slug") none) (some (units "name"))
      ∷ text_field (hinted (units "toolKind") (localized_of (units "kind") 100))
      ∷ text_field (record (localized_of (units "summary") 1000) { control = textarea })
      ∷ text_field (
          labelled (units "toolUrl")
            (hinted (units "toolUrl") (web_address true (text_of (units "url") 2048))))
      ∷ tags_field (record {
        base = plain_base (units "tech") (some (units "tags"));
        name = units "tech";
        min = 0;
        max = 50;
      })
      ∷ [];
  empty_draft = obj (
      object (
        (units "slug", blank)
        ∷ (units "name", blank)
        ∷ (units "url", blank)
        ∷ (units "tech", arr nil)
        ∷ (
          units "translations",
          both_locales (λ _. obj (object ((units "kind", blank) ∷ (units "summary", blank) ∷ []))),
        )
        ∷ []));
  to_draft = λ item. obj (
      object (
        (units "slug", prop item (units "slug"))
        ∷ (units "name", prop item (units "name"))
        ∷ (units "url", prop item (units "url"))
        ∷ (units "tech", clean_tags (prop item (units "tech")))
        ∷ (
          units "translations",
          both_locales (λ l. obj (
              object (
                (units "kind", translated item l (units "kind"))
                ∷ (units "summary", translated item l (units "summary"))
                ∷ []))),
        )
        ∷ []));
  to_payload = trim_deep;
}

-- `text.summary === '' || text.summary === undefined ? null : text.summary`
abbrev summary_of : Option Json → Json
summary_of none = null
summary_of (some (str s)) = null_if_blank s
summary_of (some v) = v

-- An empty summary means none, in each language on its own.
abbrev archive_text : Option Json → Json
archive_text none = obj (member (units "summary") null end)
archive_text (some t) = assign (units "summary") (summary_of (child t (units "summary"))) t

unfoldable pub archive_payload : Json → Json
archive_payload draft =
    let payload = trim_deep draft in
    assign (units "translations")
      (both_locales
        (λ l. archive_text (child (prop payload (units "translations")) (locale_key l))))
      payload

unfoldable pub archive_collection : Collection
archive_collection = record {
  id = archive;
  sortable = true;
  creatable = true;
  fields =
      text_field (localized_of (units "title") 200)
      ∷ slug_field (plain_base (units "slug") none) (some (units "translations.en.title"))
      ∷ text_field (hinted (units "archiveKind") (localized_of (units "kind") 100))
      ∷ text_field
          (labelled (units "archiveMonth") (record (text_of (units "month") 7) { control = month }))
      ∷ text_field (
          labelled (units "archiveUrl")
            (hinted (units "archiveUrl") (web_address true (text_of (units "url") 2048))))
      ∷ text_field (
          hinted (units "archiveSummary") (record (localized_of (units "summary") 1000) {
            control = textarea;
            required = always false;
          }))
      ∷ [];
  empty_draft = obj (
      object (
        (units "slug", blank)
        ∷ (units "month", blank)
        ∷ (units "url", blank)
        ∷ (
          units "translations",
          both_locales (λ _. obj (
              object
                ((units "kind", blank) ∷ (units "title", blank) ∷ (units "summary", blank) ∷ []))),
        )
        ∷ []));
  to_draft = λ item. obj (
      object (
        (units "slug", prop item (units "slug"))
        ∷ (units "month", prop item (units "month"))
        ∷ (units "url", prop item (units "url"))
        ∷ (
          units "translations",
          both_locales (λ l. obj (
              object (
                (units "kind", translated item l (units "kind"))
                ∷ (units "title", translated item l (units "title"))
                ∷ (units "summary", or_blank (translated item l (units "summary")))
                ∷ []))),
        )
        ∷ []));
  to_payload = archive_payload;
}
