-- ===== src/RowEditors/Tags/Refines.antt =====
-- The chip editor is a list of chips: its edits of the draft are the edits of the list.
use mathlib.Core.Option
use anthonyzng_web.Base.{
  ◌⊎◌, Option-cases, ◌>>=◌, ℕ, ◌≡◌, refl, sym, ap, ap₂, ◌∙◌, inl, inr, Bool, true, false, not, ◌&&◌,
  Option, none, some, List, [], ◌∷◌, length, ltb, leb, Bool-cases, bind-inv,
}
use anthonyzng_web.Base.Text.{Text, text_eq}
use anthonyzng_web.Json.{Json, arr, Items, find}
use anthonyzng_web.Draft.{
  get_at, Tag, noun, term, get_tags, set_at, tag_of, tag_json, tags_of, tags_in, tags_json,
}
use anthonyzng_web.Draft.Access.{get_at-set_at}
use anthonyzng_web.Draft.Writable.{set_at-some}
use anthonyzng_web.Fields.{TagsField}
use anthonyzng_web.Editor.{Setting, EditorForm, slug_source}
use anthonyzng_web.Editor.Typing.{
  Entries, is_source, suggests, suggested, write_entries, apply_entries,
}
use anthonyzng_web.Editor.Typing.Suggestion.{apply_entries-some, apply_entries-inv}
use anthonyzng_web.RowEditors.{
  up, down, remove, row_target, RowEdit, add_row, act_on, edit_rows, move_row,
}
use anthonyzng_web.RowEditors.Tags.{tags_entry, tag_entries, move_tag}

pub tag_of-tag_json : (t : Tag) → tag_of (tag_json t) ≡ t
unfolding find text_eq
tag_of-tag_json (noun s) = refl
tag_of-tag_json (term en zh) = refl

-- Chips are read back from the JSON values they are written as.
pub tags_of-tags_json : (ts : List Tag) → tags_of (tags_json ts) ≡ ts
tags_of-tags_json [] = refl
tags_of-tags_json (t ∷ ts) =
    ap₂ (λ (a : Tag) (r : List Tag). a ∷ r) (tag_of-tag_json t) (tags_of-tags_json ts)

-- A list has no slug to suggest.
pub suggested_arr :
    (e : Setting) (b : Bool) (xs : Items) (d : Json) → suggested e b (arr xs) d ≡ some d
suggested_arr e true xs d = refl
suggested_arr e false xs d = refl

-- An entry with a list is written as it is.
pub write_entries_arr :
    (e : Setting) (following : Bool) (path : Text) (xs : Items) (entries : Entries) (draft : Json)
    → write_entries e following ((path, arr xs) ∷ entries) draft
      ≡ (set_at draft path (arr xs) >>= write_entries e following entries)
unfolding write_entries
write_entries_arr e following path xs entries draft =
    ap (λ k. set_at draft path (arr xs) >>= k)
      (λ i d.
        (suggested_arr e (following && is_source (slug_source e.collection.fields) path) xs d i
          >>= write_entries e following entries))

tags_entry-get_tags :
    (e : Setting) (field : TagsField) (next : List Tag) (f : EditorForm) {g : EditorForm}
    → apply_entries e (tags_entry field next) f ≡ some g
    → get_tags g.draft field.name ≡ next
unfolding get_tags write_entries
tags_entry-get_tags e field next f {g} h =
    let items = tags_json next in
    let (d, w, same) = bind-inv (set_at f.draft field.name (arr items)) _ (
      sym (write_entries_arr e (suggests e f) field.name items [] f.draft)
      ∙ apply_entries-inv e (tags_entry field next) f h) in
    let same' : d ≡ g.draft = cc in
    rw (← same')
      (ap tags_in (get_at-set_at f.draft field.name (arr items) w) ∙ tags_of-tags_json next)

-- The list that an edit asks for.
abbrev pub edit_tags : TagsField → RowEdit Tag → List Tag → Option (List Tag)
edit_tags field edit tags = edit_rows (not (leb field.max (length tags))) true edit tags

moved_entries :
    (field : TagsField) (tags : List Tag) (index : ℕ) (target : Option ℕ)
    → move_tag field tags index target ≡ Option.map (tags_entry field) (move_row tags index target)
moved_entries field tags index none = refl
moved_entries field tags index (some target) = elim (Bool-cases (ltb target (length tags))) [
  | inl t ↦ rw t refl
  | inr t ↦ rw t refl
]

tag_entries-edit_tags :
    (field : TagsField) (draft : Json) (edit : RowEdit Tag)
    → tag_entries field draft edit
      ≡ Option.map (tags_entry field) (edit_tags field edit (get_tags draft field.name))
unfolding tag_entries
tag_entries-edit_tags field draft (add_row tag) =
    elim (Bool-cases (leb field.max (length (get_tags draft field.name)))) [
      | inl t ↦ rw t refl
      | inr t ↦ rw t refl
    ]
tag_entries-edit_tags field draft (act_on index remove) = refl
tag_entries-edit_tags field draft (act_on index up) =
    moved_entries field (get_tags draft field.name) index (row_target up index)
tag_entries-edit_tags field draft (act_on index down) =
    moved_entries field (get_tags draft field.name) index (row_target down index)

-- A list that is there can be written.
tags_entry-applied :
    (e : Setting) (field : TagsField) (next : List Tag) (f : EditorForm) {u : Json}
    → get_at f.draft field.name ≡ some u
    → (g : EditorForm) × (apply_entries e (tags_entry field next) f ≡ some g)
unfolding write_entries
tags_entry-applied e field next f {u} there =
    let items = tags_json next in
    let (d, w) = set_at-some f.draft field.name u (arr items) there in
    apply_entries-some e (tags_entry field next) f (
      write_entries_arr e (suggests e f) field.name items [] f.draft
      ∙ ap (λ o. o >>= write_entries e (suggests e f) []) w)

-- Where the draft has a value at the path of the chips: either the list says that the edit does nothing, and the
-- editor hands nothing to the form, or what it hands over is applied, and the chips of the draft are then as the
-- list's edit makes them.
pub tag_entries-refines :
    (e : Setting) (field : TagsField) (edit : RowEdit Tag) (f : EditorForm) {u : Json}
    → get_at f.draft field.name ≡ some u
    → (tag_entries field f.draft edit ≡ none)
        × (edit_tags field edit (get_tags f.draft field.name) ≡ none)
      ⊎ ((entries : Entries) × (g : EditorForm) × (tag_entries field f.draft edit ≡ some entries)
          × (apply_entries e entries f ≡ some g)
          × (edit_tags field edit (get_tags f.draft field.name)
              ≡ some (get_tags g.draft field.name)))
tag_entries-refines e field edit f there =
    let key = tag_entries-edit_tags field f.draft edit in
    elim (Option-cases (edit_tags field edit (get_tags f.draft field.name))) [
      | inl n ↦ inl (key ∙ ap (Option.map (tags_entry field)) n, n)
      | inr (next, s) ↦
          let (g, applied) = tags_entry-applied e field next f there in
          inr (
            tags_entry field next,
            g,
            key ∙ ap (Option.map (tags_entry field)) s,
            applied,
            s ∙ ap some (sym (tags_entry-get_tags e field next f applied)),
          )
    ]
