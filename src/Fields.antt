-- ===== src/Fields.antt =====
-- frontend/src/admin/fields.ts: the field configs that drive the editor. Visibility and the
-- requirement of a text field may depend on the draft.
use anthonyzng_web.Base.{ℕ, Bool, true, Option, none, some, List, [], ◌∷◌, ◌++◌}
use anthonyzng_web.Base.Text.{Text, units, dot}
use anthonyzng_web.Json.{Json}
use anthonyzng_web.Draft.{en_key, zh_key}

pub data Locale : Type 0 where
  en zh_hant : Locale

-- `LOCALES` of frontend/src/admin/schemas.ts
abbrev pub locales : List Locale
locales = en ∷ zh_hant ∷ []

abbrev pub locale_key : Locale → Text
locale_key en = en_key
locale_key zh_hant = zh_key

pub data TextControl : Type 0 where
  text textarea url month year : TextControl

pub data Scheme : Type 0 where
  web link : Scheme

pub data Requirement : Type 0 where
  always : Bool → Requirement
  when : (Json → Bool) → Requirement

pub record FieldBase : Type 0 where
  pub label : Text
  pub hint : Option Text
  pub visible : Option (Json → Bool)

pub record TextField : Type 0 where
  pub base : FieldBase
  pub control : TextControl
  pub name : Text
  pub localized : Bool
  pub max : ℕ
  pub required : Requirement
  pub scheme : Option Scheme

pub record TagsField : Type 0 where
  pub base : FieldBase
  pub name : Text
  pub min : ℕ
  pub max : ℕ

pub record BulletsField : Type 0 where
  pub base : FieldBase
  pub min : ℕ
  pub max : ℕ
  pub item_max : ℕ

pub data FieldConfig : Type 0 where
  slug_field : FieldBase → (source : Option Text) → FieldConfig
  text_field : TextField → FieldConfig
  boolean_field : FieldBase → (name : Text) → FieldConfig
  end_field : FieldBase → FieldConfig
  tags_field : TagsField → FieldConfig
  bullets_field : BulletsField → FieldConfig

abbrev pub tag_max_length : ℕ
tag_max_length = 100

unfoldable pub localized_path : Locale → Text → Text
localized_path locale name = units "translations." ++ (locale_key locale ++ dot ∷ name)

unfoldable pub bullets_path : Locale → Text
unfolding localized_path
bullets_path locale = localized_path locale (units "bullets")

abbrev pub base_of : FieldConfig → FieldBase
base_of (slug_field b _) = b
base_of (text_field f) = f.base
base_of (boolean_field b _) = b
base_of (end_field b) = b
base_of (tags_field f) = f.base
base_of (bullets_field f) = f.base

-- `field.visible?.(draft) ?? true`
abbrev pub shows : Option (Json → Bool) → Json → Bool
shows none draft = true
shows (some test) draft = test draft

unfoldable pub is_visible : FieldConfig → Json → Bool
is_visible field draft = shows (base_of field).visible draft

abbrev pub holds : Requirement → Json → Bool
holds (always b) draft = b
holds (when test) draft = test draft

unfoldable pub is_required : TextField → Json → Bool
is_required field draft = holds field.required draft
