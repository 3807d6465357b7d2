-- ===== src/Validation/ErrorSlots/Cover.antt =====
-- Every error of `validateDraft` is keyed by a path that `errorSlots` lists for the same draft.
use anthonyzng_web.Base.{
  ℕ, suc, ◌≡◌, Bool, true, Option, none, some, List, [], ◌∷◌, ◌++◌, All, All-left, All-right,
  Bool-cases, inl, inr, and_split, ltb,
}
use anthonyzng_web.Base.Text.{Text, trim}
use anthonyzng_web.Base.Dict.{keys, IsIn, IsIn-head, IsIn-tail, All-keys-insert}
use anthonyzng_web.Json.{Json}
use anthonyzng_web.Draft.{get_string, Tag, noun, term}
use anthonyzng_web.Fields.{
  Locale, en, zh_hant, FieldConfig, TextField, TagsField, BulletsField, slug_field, text_field,
  boolean_field, end_field, tags_field, bullets_field, is_visible,
}
use anthonyzng_web.Collections.Types.{Collection, is_projects}
use anthonyzng_web.Validation.{
  FieldError, FieldErrors, Mode, create, edit, ValidationContext, note, chip_error, row_path,
  cell_path, slug_key, chip_errors, tag_count_errors, tags_too_many, tags_too_few, error_if,
  slug_errors, slug_error, placeholder_image, tag_errors, bullet_errors, locale_bullet_errors,
  path_errors, field_errors, all_errors, validate_draft, owns_image, placeholder_key,
}
use anthonyzng_web.Validation.ErrorSlots.{
  chip_slots, slug_slots, row_slots, locale_slots, field_slots, all_slots, error_slots,
}

module _ (P : Text → Type 0) where
  note-keys :
      (path : Text) (o : Option FieldError) (errors : FieldErrors)
      → P path
      → All P (keys errors)
      → All P (keys (note path o errors))
  note-keys path none errors p h = h
  note-keys path (some e) errors p h = All-keys-insert P path e errors p h

  chip_errors-keys :
      (name : Text) (i : ℕ) (tags : List Tag) (errors : FieldErrors)
      → All P (chip_slots name i tags)
      → All P (keys errors)
      → All P (keys (chip_errors name i tags errors))
  unfolding chip_errors chip_slots
  chip_errors-keys name i [] errors s h = h
  chip_errors-keys name i (noun t ∷ tags) errors (p, s) h =
      chip_errors-keys name (suc i) tags _ s (note-keys (row_path name i) (chip_error t) errors p h)
  chip_errors-keys name i (term e z ∷ tags) errors (_, (p, (q, s))) h =
      let path = row_path name i in
      chip_errors-keys name (suc i) tags _ s (
        note-keys (cell_path path zh_hant) (chip_error z) _ q
          (note-keys (cell_path path en) (chip_error e) errors p h))

  bullet_errors-keys :
      (max : ℕ) (path : Text) (i : ℕ) (bullets : List Text) (errors : FieldErrors)
      → All P (row_slots path i bullets)
      → All P (keys errors)
      → All P (keys (bullet_errors max path i bullets errors))
  unfolding bullet_errors row_slots
  bullet_errors-keys max path i [] errors s h = h
  bullet_errors-keys max path i (b ∷ rest) errors (p, s) h =
      bullet_errors-keys max path (suc i) rest _ s (note-keys _ _ errors p h)

  locale_bullet_errors-keys :
      (f : BulletsField) (draft : Json) (locale : Locale) (errors : FieldErrors)
      → All P (locale_slots draft locale)
      → All P (keys errors)
      → All P (keys (locale_bullet_errors f draft locale errors))
  unfolding locale_bullet_errors locale_slots
  locale_bullet_errors-keys f draft locale errors (p, s) h =
      bullet_errors-keys _ _ 0 _ _ s (note-keys _ _ errors p h)

  path_errors-keys :
      (parses : Text → Bool) (f : TextField) (draft : Json) (paths : List Text)
      (errors : FieldErrors)
      → All P paths
      → All P (keys errors)
      → All P (keys (path_errors parses f draft paths errors))
  unfolding path_errors
  path_errors-keys parses f draft [] errors s h = h
  path_errors-keys parses f draft (path ∷ paths) errors (p, s) h =
      path_errors-keys parses f draft paths _ s (note-keys _ _ errors p h)

  tag_count_errors-keys :
      (f : TagsField) (count : ℕ) (errors : FieldErrors)
      → P f.name
      → All P (keys errors)
      → All P (keys (tag_count_errors f count errors))
  unfolding tag_count_errors
  tag_count_errors-keys f count errors p h =
      note-keys f.name (error_if (ltb f.max count) (tags_too_many f.max)) _ p
        (note-keys f.name (error_if (ltb count f.min) (tags_too_few f.min)) errors p h)

  slug_errors-keys :
      (mode : Mode) (context : ValidationContext) (draft : Json) (errors : FieldErrors)
      → All P (slug_slots mode)
      → All P (keys errors)
      → All P (keys (slug_errors mode context draft errors))
  slug_errors-keys create context draft errors (p, _) h =
      note-keys slug_key (slug_error (trim (get_string draft slug_key)) context.existing_slugs)
        errors p h
  slug_errors-keys edit context draft errors s h = h

  field_errors-keys :
      (parses : Text → Bool) (draft : Json) (context : ValidationContext) (f : FieldConfig)
      (errors : FieldErrors)
      → All P (field_slots draft context.mode f)
      → All P (keys errors)
      → All P (keys (field_errors parses draft context f errors))
  unfolding field_errors field_slots tag_errors
  field_errors-keys parses draft context (slug_field b source) errors s h =
      slug_errors-keys context.mode context draft errors s h
  field_errors-keys parses draft context (text_field f) errors s h =
      path_errors-keys parses f draft _ errors s h
  field_errors-keys parses draft context (boolean_field b name) errors s h = h
  field_errors-keys parses draft context (end_field b) errors (p, _) h = note-keys _ _ errors p h
  field_errors-keys parses draft context (tags_field f) errors (p, s) h =
      chip_errors-keys f.name 0 _ _ s (tag_count_errors-keys f _ errors p h)
  field_errors-keys parses draft context (bullets_field f) errors s h =
      locale_bullet_errors-keys f draft zh_hant _ (All-right P _ _ s)
        (locale_bullet_errors-keys f draft en errors (All-left P _ _ s) h)

  all_errors-keys :
      (parses : Text → Bool) (draft : Json) (context : ValidationContext) (fs : List FieldConfig)
      (errors : FieldErrors)
      → All P (all_slots draft context.mode fs)
      → All P (keys errors)
      → All P (keys (all_errors parses draft context fs errors))
  unfolding all_errors all_slots
  all_errors-keys parses draft context [] errors s h = h
  all_errors-keys parses draft context (f ∷ fs) errors s h =
      elim (Bool-cases (is_visible f draft)) [
        | inl e ↦
            let s' : All P (field_slots draft context.mode f ++ all_slots draft context.mode fs) =
              rw e at s in
            rw e (
              all_errors-keys parses draft context fs (field_errors parses draft context f errors)
                (All-right P _ _ s')
                (field_errors-keys parses draft context f errors (All-left P _ _ s') h))
        | inr e ↦ rw e (all_errors-keys parses draft context fs errors (rw e at s) h)
      ]

All-IsIn_tail :
    (k : Text) (xs ys : List Text) → All (λ j. IsIn j ys) xs → All (λ j. IsIn j (k ∷ ys)) xs
All-IsIn_tail k [] ys h = tt
All-IsIn_tail k (x ∷ xs) ys (p, h) = (IsIn-tail x k ys p, All-IsIn_tail k xs ys h)

All-IsIn : (xs : List Text) → All (λ k. IsIn k xs) xs
All-IsIn [] = tt
All-IsIn (x ∷ xs) = (IsIn-head x xs, All-IsIn_tail x xs xs (All-IsIn xs))

-- The form can show every error that the checks find, if the collection of projects has its
-- placeholder control.
pub validate_draft-keys :
    (parses : Text → Bool) (collection : Collection) (draft : Json) (context : ValidationContext)
    → (is_projects collection.id ≡ true
        → IsIn placeholder_key (error_slots collection draft context.mode))
    → All
        (λ k. IsIn k (error_slots collection draft context.mode))
        (keys (validate_draft parses collection draft context))
unfolding validate_draft error_slots
validate_draft-keys parses collection draft context shown =
    let slots = all_slots draft context.mode collection.fields in
    let found = all_errors parses draft context collection.fields [] in
    let covered : All (λ k. IsIn k slots) (keys found) =
      all_errors-keys (λ k. IsIn k slots) parses draft context collection.fields [] (All-IsIn slots)
        tt in
    elim (Bool-cases (owns_image collection draft context)) [
      | inl e ↦ rw e (
          All-keys-insert (λ k. IsIn k slots) placeholder_key placeholder_image found
            (shown (and_split _ _ (and_split _ _ e).0).0) covered)
      | inr e ↦ rw e covered
    ]
