-- ===== src/RowEditors/Tags/Kinds.antt =====
-- One chip written at its row: a text typed into it, or its switch between noun and term.
use mathlib.Core.Bool.{and-false}
use anthonyzng_web.Base.{
  ℕ, zero, suc, ◌≡◌, refl, sym, ap, ◌∙◌, inl, inr, Bool, false, Option, none, some, [], ◌∷◌,
  get_elem?, set, Option-cases, arith,
}
use anthonyzng_web.Base.Text.{Text, split_dot, show_nat}
use anthonyzng_web.Base.Text.Laws.{NoDot, split_dot-append, split_dot_of_NoDot}
use anthonyzng_web.Base.Text.Digits.{digits_value-show_nat, show_nat-digits, show_nat-NoDot}
use anthonyzng_web.Json.{Json, arr, Items, nil, cons}
use anthonyzng_web.Draft.{
  walk, child_of, Tag, to_index, child, get_at, get_tags, set_at, set_in, set_item, tag_of,
  tag_json, tags_of, tags_in,
}
use anthonyzng_web.Draft.Access.{walk_of, set_in-inv, store_arr-inv, child-store, walk_cons}
use anthonyzng_web.Validation.{row_path}
use anthonyzng_web.RowEditors.Tags.Refines.{tag_of-tag_json}
use anthonyzng_web.Editor.Typing.{suggests, apply_entries, Entries, is_source, write_entries}
use anthonyzng_web.RowEditors.Tags.{as_kind, TagsField, set_kind}
use anthonyzng_web.Editor.{EditorForm, slug_source, Setting}
use anthonyzng_web.Editor.Typing.Suggestion.{apply_entries-inv}

to_index-show_nat : (i : ℕ) → to_index (show_nat i) ≡ some i
unfolding to_index
to_index-show_nat i = rw (show_nat-digits i) (ap some (digits_value-show_nat i))

split_dot-row_path :
    (name : Text) (i : ℕ) → NoDot name → split_dot (row_path name i) ≡ name ∷ show_nat i ∷ []
split_dot-row_path name i h =
    split_dot-append name (show_nat i) h
    ∙ ap (λ r. name ∷ r) (split_dot_of_NoDot (show_nat i) (show_nat-NoDot i))

tags_of-set_item :
    (xs : Items) (i : ℕ) (t : Tag) {ys : Items} {u : Tag}
    → set_item xs i (tag_json t) ≡ some ys
    → get_elem? (tags_of xs) i ≡ some u
    → tags_of ys ≡ set (tags_of xs) i t
unfolding set_item
tags_of-set_item nil i t h k = absurd (cc)
tags_of-set_item (cons x xs) zero t {ys} h k =
    let same : cons (tag_json t) xs ≡ ys = cc in
    rw (← same) (ap (λ a. a ∷ tags_of xs) (tag_of-tag_json t))
tags_of-set_item (cons x xs) (suc i) t {ys} h k = elim (Option-cases (set_item xs i (tag_json t))) [
  | inl f ↦ absurd (ground arith)
  | inr (zs, f) ↦
      let same : cons x zs ≡ ys = ground arith in
      rw (← same) (ap (λ r. tag_of x ∷ r) (tags_of-set_item xs i t f k))
]

-- A draft that has chips under a key has an array there.
tags_in-some :
    (v : Option Json) (i : ℕ) {u : Tag}
    → get_elem? (tags_in v) i ≡ some u
    → (xs : Items) × (v ≡ some (arr xs))
tags_in-some (some (arr xs)) i h = (xs, refl)
tags_in-some _ i h = absurd (cc)

-- A write into an array under a key.
set_in-row :
    (d : Json) (name w : Text) (xs : Items) (v : Json) {d' : Json}
    → child d name ≡ some (arr xs)
    → set_in (some d) (name ∷ w ∷ []) v ≡ some d'
    → (i : ℕ) × (ys : Items) × (to_index w ≡ some i)
      × (set_item xs i v ≡ some ys)
      × (child d' name ≡ some (arr ys))
unfolding child_of
set_in-row d name w xs v here h =
    let (u, f, g) = set_in-inv (some d) name (w ∷ []) v h in
    let (v', e, k) =
      set_in-inv (some (arr xs)) w [] v (ap (λ o. set_in o (w ∷ []) v) (sym here) ∙ f) in
    let same : v ≡ v' = unfold set_in in cc in
    let (i, ys, at, written, made) = store_arr-inv xs w v' k in
    (
      i,
      ys,
      at,
      ap (λ x. set_item xs i x) same ∙ written,
      child-store (some d) name u g ∙ ap some made,
    )

walk_of-nil : (o : Option Json) → walk_of o [] ≡ o
unfolding walk
walk_of-nil none = refl
walk_of-nil (some u) = refl

get_at-key : (d : Json) (name : Text) → NoDot name → get_at d name ≡ child d name
unfolding get_at
get_at-key d name h =
    rw (split_dot_of_NoDot name h) (walk_cons d name [] ∙ walk_of-nil (child d name))

-- A chip written at its row replaces that chip, and no other, in the list.
pub get_tags-row :
    (d : Json) (name : Text) (i : ℕ) (t : Tag) {d' : Json} {u : Tag}
    → NoDot name
    → get_elem? (get_tags d name) i ≡ some u
    → set_at d (row_path name i) (tag_json t) ≡ some d'
    → get_tags d' name ≡ set (get_tags d name) i t
unfolding get_tags set_at
get_tags-row d name i t {d'} nd there h =
    let (xs, held) = tags_in-some (get_at d name) i there in
    let here : child d name ≡ some (arr xs) = sym (get_at-key d name nd) ∙ held in
    let (j, ys, at, written, now) =
      set_in-row d name (show_nat i) xs (tag_json t) here
        (ap (λ ws. set_in (some d) ws (tag_json t)) (sym (split_dot-row_path name i nd)) ∙ h) in
    let same : j ≡ i = (let both : some j ≡ some i = sym at ∙ to_index-show_nat i in cc) in
    ap tags_in (get_at-key d' name nd ∙ now)
    ∙ tags_of-set_item xs i t (ap (λ k. set_item xs k (tag_json t)) (sym same) ∙ written)
        (ap (λ o. get_elem? (tags_in o) i) (sym held) ∙ there)
    ∙ ap (λ o. set (tags_in o) i t) (sym held)

-- An entry at a path that suggests no slug is written as it is.
write_entries_one :
    (e : Setting) (following : Bool) (path : Text) (value draft : Json)
    → is_source (slug_source e.collection.fields) path ≡ false
    → write_entries e following ((path, value) ∷ []) draft ≡ set_at draft path value
unfolding write_entries
write_entries_one e following path value draft h = elim (Option-cases (set_at draft path value)) [
  | inl n ↦ rw n refl
  | inr (d, w) ↦ rw (w, h, and-false following) refl
]

-- The switch of a chip between a proper noun and a translated term changes that chip as it says, and
-- no other, where the list is not what the slug is suggested from.
pub set_kind-refines :
    (e : Setting) (field : TagsField) (i : ℕ) (kind : Bool) (f : EditorForm) {t u : Tag}
    {entries : Entries} {g : EditorForm}
    → NoDot field.name
    → is_source (slug_source e.collection.fields) (row_path field.name i) ≡ false
    → get_elem? (get_tags f.draft field.name) i ≡ some u
    → as_kind kind u ≡ some t
    → set_kind field f.draft i kind ≡ some entries
    → apply_entries e entries f ≡ some g
    → get_tags g.draft field.name ≡ set (get_tags f.draft field.name) i t
unfolding set_kind
set_kind-refines e field i kind f {t} {u} {entries} {g} nd other there becomes h applied =
    let path = row_path field.name i in
    let made : set_kind field f.draft i kind ≡ some ((path, tag_json t) ∷ []) =
      rw (set_kind, there, becomes) refl in
    let same : (path, tag_json t) ∷ [] ≡ entries =
      (let both : some ((path, tag_json t) ∷ []) ≡ some entries = sym made ∙ h in cc) in
    get_tags-row f.draft field.name i t nd there (
      sym (write_entries_one e (suggests e f) path (tag_json t) f.draft other)
      ∙ apply_entries-inv e ((path, tag_json t) ∷ []) f
          (ap (λ x. apply_entries e x f) same ∙ applied))
