-- ===== src/Collections.antt =====
-- frontend/src/admin/collections.ts: the table of the collections, and the lookup by URL segment.
pub mod Types
pub mod Build
pub mod Work
pub mod Showcase
pub mod Profile
pub mod Shape
pub mod Payload
pub mod Rows
use anthonyzng_web.Base.{Bool, Option, none, some, List, [], ◌∷◌, if◌then◌else◌}
use anthonyzng_web.Base.Text.{Text, text_eq}
use Types.{
  CollectionId, hero_roles, experience, projects, skill_groups, education, certifications,
  languages, tools, contact_links, archive, site_texts, collection_ids, id_text, Collection,
}
use Work.{experience_collection, projects_collection}
use Showcase.{skill_groups_collection, tools_collection, archive_collection}
use Profile.{
  education_collection, certifications_collection, hero_roles_collection, languages_collection,
  contact_links_collection, site_texts_collection,
}

-- `COLLECTIONS`
unfoldable pub collection_of : CollectionId → Collection
unfolding experience_collection projects_collection skill_groups_collection tools_collection
    archive_collection education_collection certifications_collection hero_roles_collection
    languages_collection contact_links_collection site_texts_collection
collection_of hero_roles = hero_roles_collection
collection_of experience = experience_collection
collection_of projects = projects_collection
collection_of skill_groups = skill_groups_collection
collection_of education = education_collection
collection_of certifications = certifications_collection
collection_of languages = languages_collection
collection_of tools = tools_collection
collection_of contact_links = contact_links_collection
collection_of archive = archive_collection
collection_of site_texts = site_texts_collection

-- The id that a segment spells, among the listed ones (`isCollectionId`).
unfoldable pub find_id : Text → List CollectionId → Option CollectionId
unfolding text_eq
find_id segment [] = none
find_id segment (id ∷ ids) = if text_eq (id_text id) segment then some id else find_id segment ids

unfoldable pub get_collection : Text → Option Collection
unfolding find_id
get_collection segment = elim (find_id segment collection_ids) [
  | none ↦ none
  | some id ↦ some (collection_of id)
]
