-- ===== src/Collections/Shape.antt =====
-- What holds of every collection: its drafts have one shape, its controls have their values, and its
-- payload has the draft's keys and nothing more.
use anthonyzng_web.Base.{Bool, All, ◌≡◌, refl, true, some, List, [], ◌∷◌}
use anthonyzng_web.Base.Text.{Text, text_eq}
use anthonyzng_web.Base.Dict.{keys, has, IsIn}
use anthonyzng_web.Json.{Json, obj, Members, end, member}
use anthonyzng_web.Fields.{is_visible}
use anthonyzng_web.Validation.{ValidationContext, validate_draft, Mode, placeholder_key}
use anthonyzng_web.Validation.ErrorSlots.Cover.{validate_draft-keys}
use anthonyzng_web.Validation.ErrorSlots.{error_slots, all_slots, field_slots}
use anthonyzng_web.Collections.Types.{
  CollectionId, hero_roles, experience, projects, skill_groups, education, certifications,
  languages, tools, contact_links, archive, site_texts, id_text, is_projects,
}
use anthonyzng_web.Collections.{collection_of, get_collection}

abbrev pub member_keys : Members → List Text
member_keys end = []
member_keys (member k _ ms) = k ∷ member_keys ms

-- `Object.keys` of an object
abbrev pub json_keys : Json → List Text
json_keys (obj ms) = member_keys ms
json_keys _ = []

-- Every row gives a draft of the shape of the empty one: what `readDraft` compares.
pub to_draft-keys :
    (id : CollectionId) (item : Json)
    → json_keys ((collection_of id).to_draft item) ≡ json_keys (collection_of id).empty_draft
unfolding collection_of
to_draft-keys hero_roles item = refl
to_draft-keys experience item = refl
to_draft-keys projects item = refl
to_draft-keys skill_groups item = refl
to_draft-keys education item = refl
to_draft-keys certifications item = refl
to_draft-keys languages item = refl
to_draft-keys tools item = refl
to_draft-keys contact_links item = refl
to_draft-keys archive item = refl
to_draft-keys site_texts item = refl

-- A segment gives the collection that it spells.
pub get_collection-id_text :
    (id : CollectionId) → get_collection (id_text id) ≡ some (collection_of id)
unfolding get_collection
get_collection-id_text hero_roles = refl
get_collection-id_text experience = refl
get_collection-id_text projects = refl
get_collection-id_text skill_groups = refl
get_collection-id_text education = refl
get_collection-id_text certifications = refl
get_collection-id_text languages = refl
get_collection-id_text tools = refl
get_collection-id_text contact_links = refl
get_collection-id_text archive = refl
get_collection-id_text site_texts = refl

-- The form of projects can always show an error at its placeholder box.
pub placeholder_slot :
    (id : CollectionId) (draft : Json) (mode : Mode)
    → is_projects (collection_of id).id ≡ true
    → IsIn placeholder_key (error_slots (collection_of id) draft mode)
unfolding collection_of error_slots all_slots field_slots is_visible has text_eq
placeholder_slot projects draft mode h = refl
placeholder_slot hero_roles draft mode h = absurd (cc)
placeholder_slot _ draft mode h = absurd (cc)

-- Each error that the checks find in a collection's draft stands at a path of its form.
pub collection_errors-IsShown :
    (parses : Text → Bool) (id : CollectionId) (draft : Json) (context : ValidationContext)
    → All
        (λ k. IsIn k (error_slots (collection_of id) draft context.mode))
        (keys (validate_draft parses (collection_of id) draft context))
collection_errors-IsShown parses id draft context =
    validate_draft-keys parses (collection_of id) draft context
      (placeholder_slot id draft context.mode)
