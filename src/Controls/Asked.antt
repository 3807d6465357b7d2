-- ===== src/Controls/Asked.antt =====
-- The controls of a form ask for every path that `errorSlots` lists for it.
use mathlib.Core.Path.{subst}
use anthonyzng_web.Base.{
  inr, refl, if◌then◌else◌, ◌≤◌, length, inl, arith, ◌||◌, sym, ◌∙◌, ap, ℕ, zero, suc, ◌≡◌, Bool,
  true, false, List, [], ◌∷◌, ◌++◌, All, All-append,
}
use anthonyzng_web.Controls.{
  localized_path, get_tags, tags_field, end_key, end_field, bullets_shown, boolean_field, create,
  bullets_path, text_field, slug_key, is_visible, slug_field, bullets_field, FieldConfig,
  slug_controls, form_controls, Json, Mode, text_controls, field_controls, bullet_controls, zh_hant,
  en, cell_path, term, for_path, row_path, noun, Tag, chip_controls, Control,
}
use anthonyzng_web.Validation.{edit, create}
use anthonyzng_web.Base.Text.{Text}
use anthonyzng_web.Base.Dict.{has-append, IsIn-tail, IsIn-head, has, IsIn}
use anthonyzng_web.Validation.ErrorSlots.{
  slug_slots, all_slots, field_slots, locale_slots, row_slots, chip_slots,
}
use anthonyzng_web.Base.Text.Laws.{text_eq-cases}
use anthonyzng_web.Fields.{BulletsField}

-- The paths that the controls ask for, in order
unfoldable pub asked : List Control → List Text
asked [] = []
asked (c ∷ cs) = c ++ asked cs

has-asked_append :
    (k : Text) (cs ds : List Control)
    → has k (asked (cs ++ ds)) ≡ (has k (asked cs) || has k (asked ds))
unfolding asked has
has-asked_append k [] ds = refl
has-asked_append k (c ∷ cs) ds =
    ground (
      arith,
      has-append k c (asked (cs ++ ds)),
      has-append k c (asked cs),
      has-asked_append k cs ds,
    )

asked_left : (k : Text) (cs ds : List Control) → IsIn k (asked cs) → IsIn k (asked (cs ++ ds))
asked_left k cs ds h = has-asked_append k cs ds ∙ rw h

asked_right : (k : Text) (cs ds : List Control) → IsIn k (asked ds) → IsIn k (asked (cs ++ ds))
asked_right k cs ds h = has-asked_append k cs ds ∙ ground arith

-- What is asked for on less is asked for on more.
widen :
    (ks js : List Text) (P : Text → Type 0)
    → ((k : Text) → IsIn k js → P k)
    → All (λ k. IsIn k js) ks
    → All P ks
widen [] js P f h = tt
widen (k ∷ ks) js P f (p, h) = (f k p, widen ks js P f h)

abbrev pub Asked : List Control → List Text → Type 0
Asked cs ks = All (λ k. IsIn k (asked cs)) ks

after : (ks : List Text) (cs ds : List Control) → Asked ds ks → Asked (cs ++ ds) ks
after ks cs ds h =
    widen ks (asked ds) (λ k. IsIn k (asked (cs ++ ds))) (λ k p. asked_right k cs ds p) h

before : (ks : List Text) (cs ds : List Control) → Asked cs ks → Asked (cs ++ ds) ks
before ks cs ds h =
    widen ks (asked cs) (λ k. IsIn k (asked (cs ++ ds))) (λ k p. asked_left k cs ds p) h

both :
    (ks js : List Text) (cs ds : List Control)
    → Asked cs ks
    → Asked ds js
    → Asked (cs ++ ds) (ks ++ js)
both ks js cs ds h g = All-append _ ks js (before ks cs ds h) (after js cs ds g)

chips_asked :
    (name : Text) (i : ℕ) (tags : List Tag)
    → Asked (chip_controls name i tags) (chip_slots name i tags)
unfolding chip_controls chip_slots asked
chips_asked name i [] = tt
chips_asked name i (noun s ∷ tags) = (
  IsIn-head (row_path name i) _,
  after _ (for_path (row_path name i) ∷ []) (chip_controls name (suc i) tags)
      (chips_asked name (suc i) tags),
)
chips_asked name i (term e z ∷ tags) =
    let row = row_path name i in
    let two = (cell_path row en ∷ row ∷ []) ∷ for_path (cell_path row zh_hant) ∷ [] in
    (
      IsIn-tail row (cell_path row en) _ (IsIn-head row _),
      (
        IsIn-head (cell_path row en) _,
        (
          IsIn-tail (cell_path row zh_hant) (cell_path row en) _
              (IsIn-tail _ row _ (IsIn-head _ _)),
          after _ two (chip_controls name (suc i) tags) (chips_asked name (suc i) tags),
        ),
      ),
    )

-- Both languages' rows are among the rows of the longer list.
rows_asked_en :
    (i n : ℕ) (xs : List Text)
    → length xs ≤ n
    → Asked (bullet_controls i n) (row_slots (bullets_path en) i xs)
unfolding bullet_controls row_slots asked
rows_asked_en i n [] h = tt
rows_asked_en i zero (x ∷ xs) h = absurd (omega arith)
rows_asked_en i (suc n) (x ∷ xs) h = (
  IsIn-head _ _,
  after _
      (for_path (row_path (bullets_path en) i) ∷ for_path (row_path (bullets_path zh_hant) i) ∷ [])
      (bullet_controls (suc i) n) (rows_asked_en (suc i) n xs (omega arith)),
)

rows_asked_zh :
    (i n : ℕ) (xs : List Text)
    → length xs ≤ n
    → Asked (bullet_controls i n) (row_slots (bullets_path zh_hant) i xs)
unfolding bullet_controls row_slots asked
rows_asked_zh i n [] h = tt
rows_asked_zh i zero (x ∷ xs) h = absurd (omega arith)
rows_asked_zh i (suc n) (x ∷ xs) h = (
  IsIn-tail _ _ _ (IsIn-head _ _),
  after _
      (for_path (row_path (bullets_path en) i) ∷ for_path (row_path (bullets_path zh_hant) i) ∷ [])
      (bullet_controls (suc i) n) (rows_asked_zh (suc i) n xs (omega arith)),
)

bullets_asked :
    (draft : Json) (f : BulletsField)
    → Asked
        (field_controls draft create (bullets_field f))
        (locale_slots draft en ++ locale_slots draft zh_hant)
unfolding field_controls locale_slots asked
bullets_asked draft f =
    let lists = for_path (bullets_path en) ∷ for_path (bullets_path zh_hant) ∷ [] in
    let rows = bullet_controls 0 (bullets_shown draft) in
    let cs = lists ++ rows in
    All-append (λ k. IsIn k (asked cs)) (locale_slots draft en) (locale_slots draft zh_hant)
      (IsIn-head _ _, after _ lists rows (rows_asked_en 0 (bullets_shown draft) _ (omega arith)))
      (
        IsIn-tail _ _ _ (IsIn-head _ _),
        after _ lists rows (rows_asked_zh 0 (bullets_shown draft) _ (omega arith)),
      )

texts_asked :
    (localized : Bool) (name : Text)
    → Asked
        (text_controls localized name)
        (if localized then localized_path en name ∷ localized_path zh_hant name ∷ [] else name ∷ [])
unfolding asked
texts_asked true name = (IsIn-head _ _, (IsIn-tail _ _ _ (IsIn-head _ _), tt))
texts_asked false name = (IsIn-head name _, tt)

slug_asked : (mode : Mode) → Asked (slug_controls mode) (slug_slots mode)
unfolding asked
slug_asked create = (IsIn-head slug_key _, tt)
slug_asked edit = tt

field_asked :
    (draft : Json) (mode : Mode) (f : FieldConfig)
    → Asked (field_controls draft mode f) (field_slots draft mode f)
unfolding field_controls field_slots asked
field_asked draft mode (slug_field _ _) = slug_asked mode
field_asked draft mode (text_field f) = texts_asked f.localized f.name
field_asked draft mode (boolean_field _ name) = (IsIn-head name _, tt)
field_asked draft mode (end_field _) = (IsIn-head end_key _, tt)
field_asked draft mode (tags_field f) = (
  IsIn-head f.name _,
  after _ (for_path f.name ∷ []) (chip_controls f.name 0 (get_tags draft f.name))
      (chips_asked f.name 0 (get_tags draft f.name)),
)
field_asked draft mode (bullets_field f) = bullets_asked draft f

visible_asked :
    (draft : Json) (mode : Mode) (f : FieldConfig) (visible : Bool)
    → Asked
        (if visible then field_controls draft mode f else [])
        (if visible then field_slots draft mode f else [])
visible_asked draft mode f true = field_asked draft mode f
visible_asked draft mode f false = tt

pub form_asked :
    (draft : Json) (mode : Mode) (fs : List FieldConfig)
    → Asked (form_controls draft mode fs) (all_slots draft mode fs)
unfolding form_controls all_slots
form_asked draft mode [] = tt
form_asked draft mode (f ∷ fs) =
    both _ (all_slots draft mode fs) _ (form_controls draft mode fs)
      (visible_asked draft mode f (is_visible f draft)) (form_asked draft mode fs)

pub find_at : (P : Text → Type 0) (k : Text) (ks : List Text) → All P ks → IsIn k ks → P k
unfolding has
find_at P k [] h g = absurd (cc)
find_at P k (j ∷ ks) (p, h) g = elim (text_eq-cases j k) [
  | inl (e, _) ↦ subst P e p
  | inr (_, t) ↦ find_at P k ks h (sym (ap (λ b. b || has k ks) t) ∙ g)
]
