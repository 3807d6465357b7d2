-- ===== src/Collections/Rows.antt =====
-- The rows of the collections as the schemas of frontend/src/admin/schemas.ts type them, with the JSON value
-- of a row and the part of it that a write carries. A number is its bit pattern, as in Json.
pub mod Values
pub mod Untouched
use anthonyzng_web.Base.{ℕ, Bool, Option, none, some, List, [], ◌∷◌}
use anthonyzng_web.Base.Text.{Text, units}
use anthonyzng_web.Json.{Json, null, boolean, num, str, arr, obj, end, member}
use anthonyzng_web.Draft.{Tag, tags_json, strings_json, en_key, zh_key}
use anthonyzng_web.Collections.Types.{
  CollectionId, hero_roles, experience, projects, skill_groups, education, certifications,
  languages, tools, contact_links, archive, site_texts, ImageRef,
}
use anthonyzng_web.Collections.Build.{object}

-- `localized`
pub record Localized (A : Type 0) : Type 0 where
  pub in_en : A
  pub in_zh : A

pub record RoleText : Type 0 where
  pub role : Text
  pub location : Text
  pub bullets : List Text

-- `ExperienceItem`
pub record ExperienceItem : Type 0 where
  pub slug : Text
  pub sort_order : ℕ
  pub company : Text
  pub company_url : Option Text
  pub start : Text
  pub end_month : Option Text
  pub tech : List Tag
  pub translations : Localized RoleText
  pub updated_at : Text

pub record ProjectText : Type 0 where
  pub title : Option Text
  pub summary : Option Text

-- `ProjectItem`
pub record ProjectItem : Type 0 where
  pub slug : Text
  pub sort_order : ℕ
  pub placeholder : Bool
  pub url : Option Text
  pub tech : List Tag
  pub translations : Localized ProjectText
  pub image : Option ImageRef
  pub updated_at : Text

-- `SkillGroupItem`
pub record SkillGroupItem : Type 0 where
  pub slug : Text
  pub sort_order : ℕ
  pub items : List Tag
  pub labels : Localized Text
  pub updated_at : Text

pub record EducationItem : Type 0 where
  pub slug : Text
  pub sort_order : ℕ
  pub school : Text
  pub url : Option Text
  pub year : Text
  pub degrees : Localized Text
  pub updated_at : Text

-- `CertificationItem`
pub record CertificationItem : Type 0 where
  pub slug : Text
  pub sort_order : ℕ
  pub name : Text
  pub url : Option Text
  pub in_progress : Bool
  pub updated_at : Text

pub record ToolText : Type 0 where
  pub kind : Text
  pub summary : Text

-- `ToolItem`
pub record ToolItem : Type 0 where
  pub slug : Text
  pub sort_order : ℕ
  pub name : Text
  pub url : Text
  pub tech : List Tag
  pub translations : Localized ToolText
  pub updated_at : Text

pub record ArchiveText : Type 0 where
  pub kind : Text
  pub title : Text
  pub summary : Option Text

-- `ArchiveItem`
pub record ArchiveItem : Type 0 where
  pub slug : Text
  pub sort_order : ℕ
  pub month : Text
  pub url : Text
  pub translations : Localized ArchiveText
  pub updated_at : Text

-- A row of one text in each language: a hero role or a language.
pub record NamedItem : Type 0 where
  pub slug : Text
  pub sort_order : ℕ
  pub texts : Localized Text
  pub updated_at : Text

pub record ContactLinkItem : Type 0 where
  pub slug : Text
  pub sort_order : ℕ
  pub href : Text
  pub display : Text
  pub labels : Localized Text
  pub updated_at : Text

-- `SiteTextItem`
pub record SiteTextItem : Type 0 where
  pub slug : Text
  pub texts : Localized Text
  pub updated_at : Text

-- The rows that the schema of each collection accepts
pub data Row : CollectionId → Type 0 where
  experience_row : ExperienceItem → Row experience
  project_row : ProjectItem → Row projects
  skill_group_row : SkillGroupItem → Row skill_groups
  education_row : EducationItem → Row education
  certification_row : CertificationItem → Row certifications
  tool_row : ToolItem → Row tools
  archive_row : ArchiveItem → Row archive
  hero_role_row : NamedItem → Row hero_roles
  language_row : NamedItem → Row languages
  contact_link_row : ContactLinkItem → Row contact_links
  site_text_row : SiteTextItem → Row site_texts

-- `z.nullable(z.string())`
abbrev pub text_or_null : Option Text → Json
text_or_null none = null
text_or_null (some s) = str s

abbrev pub image_or_null : Option ImageRef → Json
image_or_null none = null
image_or_null (some i) = obj (
    object (
      (units "url", str i.url)
      ∷ (units "width", num i.width)
      ∷ (units "height", num i.height)
      ∷ []))

abbrev pub localized_json : {A : Type 0} → (A → List (Text × Json)) → Localized A → Json
localized_json texts l = obj (
    member en_key (obj (object (texts l.in_en))) (member zh_key (obj (object (texts l.in_zh))) end))

abbrev pub named : Text → Text → List (Text × Json)
named name s = (name, str s) ∷ []

abbrev pub role_texts : RoleText → List (Text × Json)
role_texts t =
    (units "role", str t.role)
    ∷ (units "location", str t.location)
    ∷ (units "bullets", arr (strings_json t.bullets))
    ∷ []

abbrev pub project_texts : ProjectText → List (Text × Json)
project_texts t =
    (units "title", text_or_null t.title) ∷ (units "summary", text_or_null t.summary) ∷ []

abbrev pub tool_texts : ToolText → List (Text × Json)
tool_texts t = (units "kind", str t.kind) ∷ (units "summary", str t.summary) ∷ []

abbrev pub archive_texts : ArchiveText → List (Text × Json)
archive_texts t =
    (units "kind", str t.kind)
    ∷ (units "title", str t.title)
    ∷ (units "summary", text_or_null t.summary)
    ∷ []
