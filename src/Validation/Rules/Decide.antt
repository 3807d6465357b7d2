-- ===== src/Validation/Rules/Decide.antt =====
-- `validateDraft` finds no error exactly in the drafts that fit.
use anthonyzng_web.Base.{
  ℕ, suc, ◌≤◌, ◌≡◌, refl, sym, ◌∙◌, ◌⊎◌, ◌↔◌, inl, inr, Bool, true, false, Option, none, some, List,
  [], ◌∷◌, length, All, arith, ltb, if◌then◌else◌, Bool-cases,
}
use anthonyzng_web.Base.Text.{Text, trim}
use anthonyzng_web.Base.Dict.{insert-ne-nil}
use anthonyzng_web.Json.{Json, null}
use anthonyzng_web.Draft.{get_at, get_string, get_strings, get_tags, Tag, noun, term}
use anthonyzng_web.Fields.{
  Locale, en, zh_hant, TextField, TagsField, BulletsField, FieldConfig, slug_field, text_field,
  boolean_field, end_field, tags_field, bullets_field, tag_max_length, bullets_path, is_visible,
}
use anthonyzng_web.Collections.Types.{Collection}
use anthonyzng_web.Validation.{
  FieldError, FieldErrors, note, row_path, cell_path, Mode, create, edit, ValidationContext,
  text_paths, slug_key, end_key, start_key, owns_image, chip_errors, chip_error, tag_errors,
  tag_count_errors, bullet_errors, locale_bullet_errors, path_errors, text_error, field_errors,
  all_errors, slug_errors, end_check, error_if, row_error, bullets_too_few, tags_too_few,
  tags_too_many, placeholder_key, placeholder_image, validate_draft,
}
use anthonyzng_web.Validation.Rules.{
  SlugFits, TextFits, RowFits, TagFits, EndFits, BulletsFit, FieldFits, DraftFits,
}
use anthonyzng_web.Validation.Rules.Checks.{
  note-nil, slug_error-none, trimmed_error-none, row_error-none, end_error-none,
}

-- A check on top of earlier errors: `Fits` is what it adds.
abbrev Adds : FieldErrors → FieldErrors → Type 0 → Type 0
Adds before after Fits = (after ≡ []) ↔ ((before ≡ []) × Fits)

Adds-note :
    {Fits : Type 0} (path : Text) (o : Option FieldError) (errors : FieldErrors)
    → (o ≡ none) ↔ Fits
    → Adds errors (note path o errors) Fits
Adds-note path o errors (to, from) =
    let (fwd, back) = note-nil path o errors in
    (λ h. let (p, q) = fwd h in (q, to p), λ (q, f). back (from f, q))

Adds-then : {F G : Type 0} {a b c : FieldErrors} → Adds a b F → Adds b c G → Adds a c (F × G)
Adds-then (p, q) (r, s) =
    (λ h. let (hb, g) = r h in let (ha, f) = p hb in (ha, (f, g)), λ h. s (q (h.0, h.1.0), h.1.1))

Adds-nothing : {errors : FieldErrors} → Adds errors errors Unit
Adds-nothing = (λ h. (h, tt), λ h. h.0)

Adds-as : {F G : Type 0} {a b : FieldErrors} → F ↔ G → Adds a b F → Adds a b G
Adds-as (f, g) (p, q) = (λ h. let (x, y) = p h in (x, f y), λ (x, y). q (x, g y))

chip_errors-Adds :
    (name : Text) (i : ℕ) (tags : List Tag) (errors : FieldErrors)
    → Adds errors (chip_errors name i tags errors) (All TagFits tags)
unfolding chip_errors chip_error
chip_errors-Adds name i [] errors = Adds-nothing
chip_errors-Adds name i (noun s ∷ tags) errors =
    Adds-then
      (Adds-note (row_path name i) (row_error tag_max_length (trim s)) errors
        (row_error-none tag_max_length (trim s)))
      (chip_errors-Adds name (suc i) tags _)
chip_errors-Adds name i (term e z ∷ tags) errors =
    let max = tag_max_length in
    let path = row_path name i in
    Adds-then
      (Adds-then
        (Adds-note (cell_path path en) (row_error max (trim e)) errors
          (row_error-none max (trim e)))
        (Adds-note (cell_path path zh_hant) (row_error max (trim z)) _
          (row_error-none max (trim z))))
      (chip_errors-Adds name (suc i) tags _)

bullet_errors-Adds :
    (max : ℕ) (path : Text) (i : ℕ) (bullets : List Text) (errors : FieldErrors)
    → Adds errors
        (bullet_errors max path i bullets errors)
        (All (λ b. RowFits max (trim b)) bullets)
unfolding bullet_errors
bullet_errors-Adds max path i [] errors = Adds-nothing
bullet_errors-Adds max path i (b ∷ rest) errors =
    Adds-then
      (Adds-note (row_path path i) (row_error max (trim b)) errors (row_error-none max (trim b)))
      (bullet_errors-Adds max path (suc i) rest _)

-- A test on a length finds no error exactly within the bound.
error_if-le : (a b : ℕ) (e : FieldError) → (error_if (ltb a b) e ≡ none) ↔ (b ≤ a)
error_if-le a b e = ground arith

tag_count_errors-Adds :
    (f : TagsField) (count : ℕ) (errors : FieldErrors)
    → Adds errors (tag_count_errors f count errors) ((f.min ≤ count) × (count ≤ f.max))
unfolding tag_count_errors
tag_count_errors-Adds f count errors =
    Adds-then
      (Adds-note f.name (error_if (ltb count f.min) (tags_too_few f.min)) errors
        (error_if-le count f.min _))
      (Adds-note f.name (error_if (ltb f.max count) (tags_too_many f.max)) _
        (error_if-le f.max count _))

locale_bullet_errors-Adds :
    (f : BulletsField) (draft : Json) (locale : Locale) (errors : FieldErrors)
    → Adds errors
        (locale_bullet_errors f draft locale errors)
        (BulletsFit f (get_strings draft (bullets_path locale)))
unfolding locale_bullet_errors
locale_bullet_errors-Adds f draft locale errors =
    let bullets = get_strings draft (bullets_path locale) in
    Adds-then
      (Adds-note (bullets_path locale) (error_if (ltb (length bullets) f.min) bullets_too_few)
        errors (error_if-le (length bullets) f.min bullets_too_few))
      (bullet_errors-Adds f.item_max (bullets_path locale) 0 bullets _)

path_errors-Adds :
    (parses : Text → Bool) (f : TextField) (draft : Json) (paths : List Text) (errors : FieldErrors)
    → Adds errors
        (path_errors parses f draft paths errors)
        (All (λ path. TextFits parses f draft (trim (get_string draft path))) paths)
unfolding path_errors text_error
path_errors-Adds parses f draft [] errors = Adds-nothing
path_errors-Adds parses f draft (path ∷ paths) errors =
    Adds-then
      (Adds-note path _ errors (trimmed_error-none parses f (trim (get_string draft path)) draft))
      (path_errors-Adds parses f draft paths _)

-- A check behind a condition.
Adds-if :
    {F : Type 0} {a b : FieldErrors} (test : Bool)
    → Adds a b F
    → Adds a (if test then b else a) (test ≡ true → F)
Adds-if true p = Adds-as ((λ f e. f), (λ g. g refl)) p
Adds-if false p = (λ h. (h, λ e. absurd (cc)), λ h. h.0)

slug_errors-Adds :
    (mode : Mode) (context : ValidationContext) (draft : Json) (errors : FieldErrors)
    → Adds errors
        (slug_errors mode context draft errors)
        (mode ≡ create → SlugFits (trim (get_string draft slug_key)) context.existing_slugs)
slug_errors-Adds create context draft errors =
    let slug = trim (get_string draft slug_key) in
    Adds-as ((λ f e. f), (λ g. g refl))
      (Adds-note slug_key _ errors (slug_error-none slug context.existing_slugs))
slug_errors-Adds edit context draft errors = (λ h. (h, λ e. absurd (cc)), λ h. h.0)

-- The current role has no end month; any other draft is judged by its months.
end_check-none :
    (v : Option Json) (draft : Json)
    → (end_check v draft ≡ none) ↔ (
        (v ≡ some null)
        ⊎ EndFits (trim (get_string draft end_key)) (trim (get_string draft start_key)))
end_check-none (some null) draft = (λ h. inl refl, λ h. refl)
end_check-none v draft =
    let (to, from) =
      end_error-none (trim (get_string draft end_key)) (trim (get_string draft start_key)) in
    (λ h. inr (to h), λ h. elim h [ inl e ↦ absurd (cc) | inr fits ↦ from fits ])

field_errors-Adds :
    (parses : Text → Bool) (draft : Json) (context : ValidationContext) (f : FieldConfig)
    (errors : FieldErrors)
    → Adds errors (field_errors parses draft context f errors) (FieldFits parses draft context f)
unfolding field_errors tag_errors
field_errors-Adds parses draft context (slug_field b source) errors =
    slug_errors-Adds context.mode context draft errors
field_errors-Adds parses draft context (text_field f) errors =
    path_errors-Adds parses f draft (text_paths f) errors
field_errors-Adds parses draft context (boolean_field b name) errors = Adds-nothing
field_errors-Adds parses draft context (end_field b) errors =
    Adds-note end_key _ errors (end_check-none (get_at draft end_key) draft)
field_errors-Adds parses draft context (tags_field f) errors =
    let tags = get_tags draft f.name in
    Adds-as ((λ h. (h.0.0, h.0.1, h.1)), (λ h. ((h.0, h.1), h.2)))
      (Adds-then (tag_count_errors-Adds f (length tags) errors) (chip_errors-Adds f.name 0 tags _))
field_errors-Adds parses draft context (bullets_field f) errors =
    Adds-then (locale_bullet_errors-Adds f draft en errors)
      (locale_bullet_errors-Adds f draft zh_hant _)

all_errors-Adds :
    (parses : Text → Bool) (draft : Json) (context : ValidationContext) (fs : List FieldConfig)
    (errors : FieldErrors)
    → Adds errors
        (all_errors parses draft context fs errors)
        (All (λ f. is_visible f draft ≡ true → FieldFits parses draft context f) fs)
unfolding all_errors
all_errors-Adds parses draft context [] errors = Adds-nothing
all_errors-Adds parses draft context (f ∷ fs) errors =
    Adds-then (Adds-if (is_visible f draft) (field_errors-Adds parses draft context f errors))
      (all_errors-Adds parses draft context fs _)

-- The checks pass exactly the drafts whose shown fields all fit, placeholder and image included.
pub validate_draft_iff :
    (parses : Text → Bool) (collection : Collection) (draft : Json) (context : ValidationContext)
    → (validate_draft parses collection draft context ≡ [])
      ↔ DraftFits parses collection draft context
unfolding validate_draft
validate_draft_iff parses collection draft context =
    let (to, from) = all_errors-Adds parses draft context collection.fields [] in
    elim (Bool-cases (owns_image collection draft context)) [
      | inl e ↦ (
        λ h. absurd (insert-ne-nil placeholder_key placeholder_image _ (rw e at h)),
        λ h. absurd (let bad : true ≡ false = sym e ∙ h.1 in cc),
      )
      | inr e ↦ (λ h. ((to (rw e at h)).1, e), λ h. rw e (from (refl, h.0)))
    ]
