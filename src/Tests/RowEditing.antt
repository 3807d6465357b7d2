-- ===== src/Tests/RowEditing.antt =====
-- Runs of the list editors.
use anthonyzng_web.Base.{◌⊎◌, ◌≡◌, refl, none, some, List, [], ◌∷◌, length}
use anthonyzng_web.Base.Text.{text_eq, units}
use anthonyzng_web.Json.{obj, str, arr, nil, cons}
use anthonyzng_web.Draft.{get_at, draft_operations, Tag, noun, term, get_tags, tags_json}
use anthonyzng_web.Collections.Build.{object, plain_base}
use anthonyzng_web.Fields.{localized_path, bullets_path, en, zh_hant, TagsField, BulletsField}
use anthonyzng_web.Editor.{EditorForm}
use anthonyzng_web.Editor.Typing.{apply_entries, Entries}
use anthonyzng_web.RowEditors.{add_row, act_on, down}
use anthonyzng_web.Tests.Editing.{setting, form}
use anthonyzng_web.RowEditors.Tags.{empty_term, tag_entries}
use anthonyzng_web.RowEditors.Bullets.{bullets_of, pad_to, row_count, pad_locale, bullet_entries}
use anthonyzng_web.RowEditors.Bullets.Refines.{bullet_entries-refines, bullet_rows, edit_bullets}
use anthonyzng_web.RowEditors.Tags.Refines.{tag_entries-refines, edit_tags}

abbrev tech : TagsField
tech = record { base = plain_base (units "tech") none; name = units "tech"; min = 0; max = 2 }

abbrev chips : List Tag
chips = noun (units "C") ∷ []

abbrev with_chips : EditorForm
with_chips = record form { draft = obj (object ((units "tech", arr (tags_json chips)) ∷ [])) }

has_chips : get_at with_chips.draft tech.name ≡ some (arr (tags_json chips))
unfolding draft_operations text_eq
has_chips = refl

tag_entries-refines_example :
    let tags = get_tags with_chips.draft tech.name in
    (tag_entries tech with_chips.draft (add_row empty_term) ≡ none)
      × (edit_tags tech (add_row empty_term) tags ≡ none)
    ⊎ ((entries : Entries) × (g : EditorForm) × (tag_entries tech with_chips.draft
            (add_row empty_term)
          ≡ some entries)
        × (apply_entries setting entries with_chips ≡ some g)
        × (edit_tags tech (add_row empty_term) tags ≡ some (get_tags g.draft tech.name)))
tag_entries-refines_example =
    tag_entries-refines setting tech (add_row empty_term) with_chips has_chips

-- A chip is added below the most chips that there may be.
add_chip :
    tag_entries tech with_chips.draft (add_row empty_term)
    ≡ some ((units "tech", arr (tags_json (noun (units "C") ∷ empty_term ∷ []))) ∷ [])
unfolding tag_entries draft_operations text_eq
add_chip = refl

abbrev c_term : Tag
c_term = term (units "C") []

abbrev translated_chip : EditorForm
translated_chip = record with_chips {
  draft = obj (object ((units "tech", arr (tags_json (c_term ∷ []))) ∷ []));
  errors = form.errors;
}

abbrev bullets : BulletsField
bullets = record { base = plain_base (units "bullets") none; min = 1; max = 20; item_max = 500 }

-- Two bullets in English and one in Chinese.
abbrev with_bullets : EditorForm
with_bullets = record form {
  draft = obj (
      object (
        (
          units "translations",
          obj (
              object (
                (
                  units "en",
                  obj (
                      object (
                        (units "bullets", arr (cons (str (units "a")) (cons (str (units "b")) nil)))
                        ∷ [])),
                )
                ∷ (
                  units "zh-Hant",
                  obj (object ((units "bullets", arr (cons (str (units "c")) nil)) ∷ [])),
                )
                ∷ [])),
        )
        ∷ []));
}

has_english :
    get_at with_bullets.draft (bullets_path en)
    ≡ some (arr (cons (str (units "a")) (cons (str (units "b")) nil)))
unfolding bullets_path localized_path draft_operations text_eq
has_english = refl

has_chinese :
    get_at with_bullets.draft (bullets_path zh_hant) ≡ some (arr (cons (str (units "c")) nil))
unfolding bullets_path localized_path draft_operations text_eq
has_chinese = refl

bullet_entries-refines_example :
    (bullet_entries bullets with_bullets.draft (act_on 0 down) ≡ none)
      × (edit_bullets bullets (act_on 0 down) (bullet_rows with_bullets.draft) ≡ none)
    ⊎ ((entries : Entries) × (g : EditorForm) × (bullet_entries bullets with_bullets.draft
            (act_on 0 down)
          ≡ some entries)
        × (apply_entries setting entries with_bullets ≡ some g)
        × (edit_bullets bullets (act_on 0 down) (bullet_rows with_bullets.draft)
            ≡ some (bullet_rows g.draft))
        × (length (bullets_of g.draft en) ≡ length (bullets_of g.draft zh_hant)))
bullet_entries-refines_example =
    bullet_entries-refines setting bullets (act_on 0 down) with_bullets has_english has_chinese

-- The shorter list is filled up before the rows change places.
rows_moved : bullet_rows with_bullets.draft ≡ (units "a", units "c") ∷ (units "b", []) ∷ []
unfolding pad_locale row_count pad_to bullets_path localized_path draft_operations text_eq
rows_moved = refl
