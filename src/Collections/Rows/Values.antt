-- ===== src/Collections/Rows/Values.antt =====
-- The JSON value of a row (the schemas of frontend/src/admin/schemas.ts, their properties in order), and the
-- write of it: the row without its place, its image and the moment of its last change.
use anthonyzng_web.Base.{ℕ, List, [], ◌∷◌, ◌++◌}
use anthonyzng_web.Base.Text.{Text, units}
use anthonyzng_web.Json.{Json, boolean, num, str, arr, obj}
use anthonyzng_web.Draft.{tags_json}
use anthonyzng_web.Collections.Types.{CollectionId}
use anthonyzng_web.Collections.Build.{object}
use anthonyzng_web.Collections.Rows.{
  Row, ExperienceItem, ProjectItem, SkillGroupItem, EducationItem, CertificationItem, ToolItem,
  ArchiveItem, NamedItem, ContactLinkItem, SiteTextItem, experience_row, project_row,
  skill_group_row, education_row, certification_row, tool_row, archive_row, hero_role_row,
  language_row, contact_link_row, site_text_row, text_or_null, image_or_null, localized_json, named,
  role_texts, project_texts, tool_texts, archive_texts,
}

abbrev placed : Text → ℕ → List (Text × Json)
placed slug sort_order = (units "slug", str slug) ∷ (units "sortOrder", num sort_order) ∷ []

-- The properties that a write and the stored row share, but the slug
abbrev experience_fields : ExperienceItem → List (Text × Json)
experience_fields r =
    (units "company", str r.company)
    ∷ (units "companyUrl", text_or_null r.company_url)
    ∷ (units "start", str r.start)
    ∷ (units "end", text_or_null r.end_month)
    ∷ (units "tech", arr (tags_json r.tech))
    ∷ (units "translations", localized_json role_texts r.translations)
    ∷ []

abbrev project_fields : ProjectItem → List (Text × Json)
project_fields r =
    (units "placeholder", boolean r.placeholder)
    ∷ (units "url", text_or_null r.url)
    ∷ (units "tech", arr (tags_json r.tech))
    ∷ (units "translations", localized_json project_texts r.translations)
    ∷ []

abbrev skill_group_fields : SkillGroupItem → List (Text × Json)
skill_group_fields r =
    (units "items", arr (tags_json r.items))
    ∷ (units "translations", localized_json (named (units "label")) r.labels)
    ∷ []

abbrev education_fields : EducationItem → List (Text × Json)
education_fields r =
    (units "school", str r.school)
    ∷ (units "url", text_or_null r.url)
    ∷ (units "year", str r.year)
    ∷ (units "translations", localized_json (named (units "degree")) r.degrees)
    ∷ []

abbrev certification_fields : CertificationItem → List (Text × Json)
certification_fields r =
    (units "name", str r.name)
    ∷ (units "url", text_or_null r.url)
    ∷ (units "inProgress", boolean r.in_progress)
    ∷ []

abbrev tool_fields : ToolItem → List (Text × Json)
tool_fields r =
    (units "name", str r.name)
    ∷ (units "url", str r.url)
    ∷ (units "tech", arr (tags_json r.tech))
    ∷ (units "translations", localized_json tool_texts r.translations)
    ∷ []

abbrev archive_fields : ArchiveItem → List (Text × Json)
archive_fields r =
    (units "month", str r.month)
    ∷ (units "url", str r.url)
    ∷ (units "translations", localized_json archive_texts r.translations)
    ∷ []

abbrev named_fields : Text → NamedItem → List (Text × Json)
named_fields name r = (units "translations", localized_json (named name) r.texts) ∷ []

abbrev contact_link_fields : ContactLinkItem → List (Text × Json)
contact_link_fields r =
    (units "href", str r.href)
    ∷ (units "display", str r.display)
    ∷ (units "translations", localized_json (named (units "label")) r.labels)
    ∷ []

abbrev site_text_fields : SiteTextItem → List (Text × Json)
site_text_fields r = (units "translations", localized_json (named (units "text")) r.texts) ∷ []

abbrev moment : Text → List (Text × Json)
moment updated_at = (units "updatedAt", str updated_at) ∷ []

abbrev whole : Text → ℕ → List (Text × Json) → Text → Json
whole slug sort_order fields updated_at =
    obj (object (placed slug sort_order ++ fields ++ moment updated_at))

-- The row as the API gives it
unfoldable pub row_json : {id : CollectionId} → Row id → Json
row_json (experience_row r) = whole r.slug r.sort_order (experience_fields r) r.updated_at
row_json (project_row r) =
    whole r.slug r.sort_order (project_fields r ++ (units "image", image_or_null r.image) ∷ [])
      r.updated_at
row_json (skill_group_row r) = whole r.slug r.sort_order (skill_group_fields r) r.updated_at
row_json (education_row r) = whole r.slug r.sort_order (education_fields r) r.updated_at
row_json (certification_row r) = whole r.slug r.sort_order (certification_fields r) r.updated_at
row_json (tool_row r) = whole r.slug r.sort_order (tool_fields r) r.updated_at
row_json (archive_row r) = whole r.slug r.sort_order (archive_fields r) r.updated_at
row_json (hero_role_row r) = whole r.slug r.sort_order (named_fields (units "text") r) r.updated_at
row_json (language_row r) = whole r.slug r.sort_order (named_fields (units "name") r) r.updated_at
row_json (contact_link_row r) = whole r.slug r.sort_order (contact_link_fields r) r.updated_at
row_json (site_text_row r) =
    obj (object ((units "slug", str r.slug) ∷ site_text_fields r ++ moment r.updated_at))

abbrev write_of : Text → List (Text × Json) → Json
write_of slug fields = obj (object ((units "slug", str slug) ∷ fields))

-- What a write of the row carries
unfoldable pub write_json : {id : CollectionId} → Row id → Json
write_json (experience_row r) = write_of r.slug (experience_fields r)
write_json (project_row r) = write_of r.slug (project_fields r)
write_json (skill_group_row r) = write_of r.slug (skill_group_fields r)
write_json (education_row r) = write_of r.slug (education_fields r)
write_json (certification_row r) = write_of r.slug (certification_fields r)
write_json (tool_row r) = write_of r.slug (tool_fields r)
write_json (archive_row r) = write_of r.slug (archive_fields r)
write_json (hero_role_row r) = write_of r.slug (named_fields (units "text") r)
write_json (language_row r) = write_of r.slug (named_fields (units "name") r)
write_json (contact_link_row r) = write_of r.slug (contact_link_fields r)
write_json (site_text_row r) = write_of r.slug (site_text_fields r)
