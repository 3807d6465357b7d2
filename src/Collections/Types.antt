-- ===== src/Collections/Types.antt =====
-- The types of frontend/src/admin/collections.ts that validation and the editor share. A row is the
-- JSON object that the collection's schema accepted.
use anthonyzng_web.Base.{ℕ, Bool, true, false, List, [], ◌∷◌}
use anthonyzng_web.Base.Text.{Text, units}
use anthonyzng_web.Json.{Json}
use anthonyzng_web.Fields.{FieldConfig}

pub data CollectionId : Type 0 where
  hero_roles experience projects skill_groups education certifications languages : CollectionId
  tools contact_links archive site_texts : CollectionId

-- `COLLECTION_IDS`, in navigation order
abbrev pub collection_ids : List CollectionId
collection_ids =
    hero_roles ∷ experience ∷ projects ∷ skill_groups ∷ education ∷ certifications ∷ languages
    ∷ tools ∷ contact_links ∷ archive ∷ site_texts ∷ []

-- Each id as the URL segment and the API path spell it.
abbrev pub id_text : CollectionId → Text
id_text hero_roles = units "hero-roles"
id_text experience = units "experience"
id_text projects = units "projects"
id_text skill_groups = units "skill-groups"
id_text education = units "education"
id_text certifications = units "certifications"
id_text languages = units "languages"
id_text tools = units "tools"
id_text contact_links = units "contact-links"
id_text archive = units "archive"
id_text site_texts = units "site-texts"

abbrev pub is_projects : CollectionId → Bool
is_projects projects = true
is_projects _ = false

-- `Collection`, less its schemas and the texts of its rows in the list (`title`, `detail`).
pub record Collection : Type 0 where
  pub id : CollectionId
  pub sortable : Bool
  pub creatable : Bool
  pub fields : List FieldConfig
  pub empty_draft : Json
  pub to_draft : Json → Json
  pub to_payload : Json → Json

-- A project's saved cover image (`ImageRef` of frontend/src/admin/schemas.ts).
pub record ImageRef : Type 0 where
  pub url : Text
  pub width : ℕ
  pub height : ℕ
