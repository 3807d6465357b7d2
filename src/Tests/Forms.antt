-- ===== src/Tests/Forms.antt =====
-- Runs of the collections' forms (frontend/src/admin).
use anthonyzng_web.Base.{◌≡◌, refl, ◌≢◌, ◌↔◌, inl, true, none, some, List, [], ◌∷◌, All, Bool}
use anthonyzng_web.Base.Text.{split_dot, Text, units, text_eq}
use anthonyzng_web.Base.Dict.{keys, has}
use anthonyzng_web.Json.{Json, str, arr, obj, cons, nil, WellFormed}
use anthonyzng_web.Draft.{get_at, set_at, draft_operations}
use anthonyzng_web.Draft.Access.{Diverge, get_at-set_at, get_at-set_at-Diverge}
use anthonyzng_web.Collections.{collection_of}
use anthonyzng_web.Collections.Types.{education}
use anthonyzng_web.Collections.Build.{object}
use anthonyzng_web.Collections.Shape.{json_keys}
use anthonyzng_web.Collections.Payload.{to_payload-keys}
use anthonyzng_web.Validation.{create, ValidationContext, validate_draft}
use anthonyzng_web.Validation.Rules.{DraftFits}
use anthonyzng_web.Validation.Rules.Decide.{validate_draft_iff}
use anthonyzng_web.Validation.ErrorSlots.{slot_for, map_server_fields, cut_last, climb, body_key}
use anthonyzng_web.Validation.ErrorSlots.Placement.{IsClosest, slot_for-IsClosest}
use anthonyzng_web.Validation.ErrorSlots.Kept.{IsKept, map_server_fields-IsKept}

abbrev parses_all : Text → Bool
parses_all s = true

abbrev new_row : ValidationContext
new_row = record { mode = create; existing_slugs = units "intro" ∷ []; image = none }

-- A school with a link, and its degree in both locales.
abbrev school : Json
school = obj (
    object (
      (units "slug", str (units "tuwien"))
      ∷ (units "school", str (units " TU Wien "))
      ∷ (units "url", str [])
      ∷ (units "year", str (units "2024"))
      ∷ (
        units "translations",
        obj (
            object (
              (units "en", obj (object ((units "degree", str (units "BSc")) ∷ [])))
              ∷ (units "zh-Hant", obj (object ((units "degree", str (units "BSc ")) ∷ [])))
              ∷ [])),
      )
      ∷ []))

validate_draft_iff_example :
    (validate_draft parses_all (collection_of education) school new_row ≡ [])
    ↔ DraftFits parses_all (collection_of education) school new_row
validate_draft_iff_example = validate_draft_iff parses_all (collection_of education) school new_row

abbrev slots : List Text
slots = units "tech" ∷ units "tech.3" ∷ units "url" ∷ []

abbrev rejections : List (Text × Text)
rejections = (units "tech.3.str", []) ∷ (units "body", []) ∷ (units "url", []) ∷ []

map_server_fields-IsKept_example :
    All (IsKept slots (map_server_fields rejections slots)) (keys rejections)
map_server_fields-IsKept_example = map_server_fields-IsKept rejections slots

not_body : units "tech.3.str" ≢ body_key
not_body = cc

slot_for-IsClosest_example :
    IsClosest slots (units "tech.3.str") (slot_for slots (units "tech.3.str"))
slot_for-IsClosest_example = slot_for-IsClosest slots (units "tech.3.str") not_body

-- A rejection inside a chip lands on the chip.
slot_for_chip : slot_for slots (units "tech.3.str") ≡ units "tech.3"
unfolding slot_for climb cut_last has text_eq
slot_for_chip = refl

-- Chips with a written path.
abbrev tagged : Json
tagged =
    obj (object ((units "tech", arr (cons (str (units " C ")) nil)) ∷ (units "url", str []) ∷ []))

abbrev retagged : Json
retagged =
    obj (object ((units "tech", arr (cons (str (units "Go")) nil)) ∷ (units "url", str []) ∷ []))

written : set_at tagged (units "tech.0") (str (units "Go")) ≡ some retagged
unfolding draft_operations text_eq
written = refl

get_at-set_at_example : get_at retagged (units "tech.0") ≡ some (str (units "Go"))
get_at-set_at_example = get_at-set_at tagged (units "tech.0") (str (units "Go")) written

tech_url : units "tech" ≢ units "url"
tech_url = cc

url_apart : Diverge (split_dot (units "tech.0")) (split_dot (units "url"))
unfolding draft_operations
url_apart = inl (tech_url, inl refl)

get_at-set_at-Diverge_example : get_at retagged (units "url") ≡ get_at tagged (units "url")
get_at-set_at-Diverge_example =
    get_at-set_at-Diverge tagged (units "tech.0") (units "url") (str (units "Go")) written url_apart

readable : get_at tagged (units "tech.0") ≡ some (str (units " C "))
unfolding draft_operations text_eq
readable = refl

tagged-WellFormed : WellFormed tagged
unfolding WellFormed draft_operations text_eq
tagged-WellFormed = (refl, (tt, tt), (refl, tt, tt))

go-WellFormed : WellFormed (str (units "Go"))
unfolding WellFormed
go-WellFormed = tt

school_shape : json_keys school ≡ json_keys (collection_of education).empty_draft
unfolding collection_of
school_shape = refl

to_payload-keys_example : json_keys ((collection_of education).to_payload school) ≡ json_keys school
to_payload-keys_example = to_payload-keys education school school_shape
