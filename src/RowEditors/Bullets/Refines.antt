-- ===== src/RowEditors/Bullets/Refines.antt =====
-- The bullets editor is a list of paired rows: its edits of the two lists of the draft are the edits of
-- the rows, and the two lists stay equally long.
use anthonyzng_web.Base.{
  ◌>>=◌, ◌+◌, ◌⊎◌, ℕ, ◌≡◌, refl, sym, ap, ap₂, ◌∙◌, inl, inr, arith, not, Option, none, some, List,
  [], ◌∷◌, ◌++◌, length, length-append, ltb, leb, max, Bool-cases, bind-inv, erase_idx,
}
use anthonyzng_web.Base.Text.{Text, split_dot}
use anthonyzng_web.Json.{Json, arr}
use anthonyzng_web.Draft.Index.{index_operations}
use anthonyzng_web.Draft.{get_at, get_strings, set_at, strings_in, strings_json, swapped}
use anthonyzng_web.Draft.Access.{get_at-set_at, get_at-set_at-Diverge, Diverge}
use anthonyzng_web.Draft.Writable.{set_at-some}
use anthonyzng_web.Draft.Rows.{length-swapped}
use anthonyzng_web.Fields.{localized_path, en, zh_hant, BulletsField, bullets_path}
use anthonyzng_web.RowEditors.Bullets.{
  act_bullet, add_bullet, move_bullet, bullet_entries, add_row, RowEdit, bullets_of, row_count,
  pad_to, pad_locale, commit,
}
use anthonyzng_web.RowEditors.Pairs.{zip-erase_idx, zip-append, zip-swapped, length-zip, zip}
use anthonyzng_web.Editor.Typing.{Entries, suggests, apply_entries, write_entries}
use anthonyzng_web.RowEditors.{down, up, remove, row_target, move_row, act_on, edit_rows}
use anthonyzng_web.Editor.{EditorForm, Setting}
use anthonyzng_web.RowEditors.Tags.Refines.{write_entries_arr}
use anthonyzng_web.Editor.Typing.Suggestion.{apply_entries-some, apply_entries-inv}
use anthonyzng_web.RowEditors.Bullets.Padding.{
  length-erased, length-pad_to, pad_to-length, strings_of-strings_json,
}

-- The rows that the editor shows.
abbrev pub bullet_rows : Json → List (Text × Text)
bullet_rows draft = zip (pad_locale draft en) (pad_locale draft zh_hant)

zh_apart : Diverge (split_dot (bullets_path zh_hant)) (split_dot (bullets_path en))
unfolding bullets_path localized_path split_dot index_operations
zh_apart = inr (refl, inl (cc, inl refl))

en_apart : Diverge (split_dot (bullets_path en)) (split_dot (bullets_path zh_hant))
unfolding bullets_path localized_path split_dot index_operations
en_apart = inr (refl, inl (cc, inl refl))

commit-get_strings :
    (e : Setting) (a b : List Text) (f : EditorForm) {g : EditorForm}
    → apply_entries e (commit a b) f ≡ some g
    → (bullets_of g.draft en ≡ a) × (bullets_of g.draft zh_hant ≡ b)
unfolding get_strings write_entries
commit-get_strings e a b f {g} h =
    let to_en = bullets_path en in
    let to_zh = bullets_path zh_hant in
    let (d, w, rest) = bind-inv (set_at f.draft to_en (arr (strings_json a))) _ (
      sym (
        write_entries_arr e (suggests e f) to_en (strings_json a)
          ((to_zh, arr (strings_json b)) ∷ []) f.draft)
      ∙ apply_entries-inv e (commit a b) f h) in
    let (d', w', same) =
      bind-inv (set_at d to_zh (arr (strings_json b))) _
        (sym (write_entries_arr e (suggests e f) to_zh (strings_json b) [] d) ∙ rest) in
    let same' : d' ≡ g.draft = cc in
    rw (← same') (
      ap strings_in (
            get_at-set_at-Diverge d to_zh to_en (arr (strings_json b)) w' zh_apart
            ∙ get_at-set_at f.draft to_en (arr (strings_json a)) w)
          ∙ strings_of-strings_json a,
      ap strings_in (get_at-set_at d to_zh (arr (strings_json b)) w') ∙ strings_of-strings_json b,
    )

-- Two lists of one length need no padding.
bullet_rows-equal :
    (draft : Json) (a b : List Text)
    → bullets_of draft en ≡ a
    → bullets_of draft zh_hant ≡ b
    → length a ≡ length b
    → bullet_rows draft ≡ zip a b
unfolding pad_locale row_count
bullet_rows-equal draft a b p q h =
    let n : max (length a) (length b) ≡ length a = omega arith in
    let m : max (length a) (length b) ≡ length b = omega arith in
    rw (p, q)
      (ap₂ zip (ap (λ k. pad_to k a) n ∙ pad_to-length a)
        (ap (λ k. pad_to k b) m ∙ pad_to-length b))

abbrev blank_pair : RowEdit {0} Unit → RowEdit (Text × Text)
blank_pair (add_row _) = add_row ([], [])
blank_pair (act_on index action) = act_on index action

-- The rows that an edit asks for.
abbrev pub edit_bullets :
    BulletsField → RowEdit {0} Unit → List (Text × Text) → Option (List (Text × Text))
edit_bullets field edit rows =
    edit_rows (not (leb field.max (length rows))) (not (leb (length rows) field.min))
      (blank_pair edit) rows

pads_equal : (draft : Json) → length (pad_locale draft en) ≡ length (pad_locale draft zh_hant)
unfolding pad_locale
pads_equal draft =
    length-pad_to (row_count draft) (bullets_of draft en)
    ∙ sym (length-pad_to (row_count draft) (bullets_of draft zh_hant))

length-bullet_rows : (draft : Json) → length (bullet_rows draft) ≡ row_count draft
unfolding pad_locale
length-bullet_rows draft =
    length-zip (pad_locale draft en) (pad_locale draft zh_hant) (pads_equal draft)
    ∙ length-pad_to (row_count draft) (bullets_of draft en)

-- What an edit hands over, and what it makes of the rows.
abbrev Edited : BulletsField → Json → RowEdit {0} Unit → Type 0
Edited field draft edit =
    (bullet_entries field draft edit ≡ none) × (edit_bullets field edit (bullet_rows draft) ≡ none)
    ⊎ ((a : List Text) × (b : List Text) × (bullet_entries field draft edit ≡ some (commit a b))
        × (length a ≡ length b)
        × (edit_bullets field edit (bullet_rows draft) ≡ some (zip a b)))

Edited-moved :
    (field : BulletsField) (draft : Json) (index : ℕ) (target : Option ℕ)
    → (move_bullet draft index target ≡ none) × (move_row (bullet_rows draft) index target ≡ none)
      ⊎ ((a : List Text) × (b : List Text) × (move_bullet draft index target ≡ some (commit a b))
          × (length a ≡ length b)
          × (move_row (bullet_rows draft) index target ≡ some (zip a b)))
Edited-moved field draft index none = inl (refl, refl)
Edited-moved field draft index (some target) =
    let es = pad_locale draft en in
    let zs = pad_locale draft zh_hant in
    elim (Bool-cases (ltb target (row_count draft))) [
      | inl t ↦ inr (
        swapped es index target,
        swapped zs index target,
        rw t refl,
        length-swapped es index target ∙ pads_equal draft ∙ sym (length-swapped zs index target),
        rw (length-bullet_rows draft, t)
            (ap some (sym (zip-swapped es zs index target (pads_equal draft)))),
      )
      | inr t ↦ inl (rw t refl, rw (length-bullet_rows draft, t) refl)
    ]

edit-Edited :
    (field : BulletsField) (draft : Json) (edit : RowEdit {0} Unit) → Edited field draft edit
unfolding add_bullet act_bullet
edit-Edited field draft (add_row _) =
    let es = pad_locale draft en in
    let zs = pad_locale draft zh_hant in
    elim (Bool-cases (leb field.max (row_count draft))) [
      | inl t ↦ inl (rw t refl, rw (length-bullet_rows draft, t) refl)
      | inr t ↦ inr (
        es ++ [] ∷ [],
        zs ++ [] ∷ [],
        rw t refl,
        length-append es ([] ∷ [])
            ∙ ap (λ n. n + 1) (pads_equal draft)
            ∙ sym (length-append zs ([] ∷ [])),
        rw (length-bullet_rows draft, t)
            (ap some (sym (zip-append es zs ([] ∷ []) ([] ∷ []) (pads_equal draft)))),
      )
    ]
edit-Edited field draft (act_on index remove) =
    let es = pad_locale draft en in
    let zs = pad_locale draft zh_hant in
    elim (Bool-cases (leb (row_count draft) field.min)) [
      | inl t ↦ inl (rw t refl, rw (length-bullet_rows draft, t) refl)
      | inr t ↦ inr (
        erase_idx es index,
        erase_idx zs index,
        rw t refl,
        length-erased es zs index (pads_equal draft),
        rw (length-bullet_rows draft, t)
            (ap some (sym (zip-erase_idx es zs index (pads_equal draft)))),
      )
    ]
edit-Edited field draft (act_on index up) = Edited-moved field draft index (row_target up index)
edit-Edited field draft (act_on index down) = Edited-moved field draft index (row_target down index)

-- Two lists that are there can be written.
commit-applied :
    (e : Setting) (a b : List Text) (f : EditorForm) {u v : Json}
    → get_at f.draft (bullets_path en) ≡ some u
    → get_at f.draft (bullets_path zh_hant) ≡ some v
    → (g : EditorForm) × (apply_entries e (commit a b) f ≡ some g)
unfolding write_entries
commit-applied e a b f {u} {v} there also =
    let to_en = bullets_path en in
    let to_zh = bullets_path zh_hant in
    let follows = suggests e f in
    let (d, w) = set_at-some f.draft to_en u (arr (strings_json a)) there in
    let still =
      get_at-set_at-Diverge f.draft to_en to_zh (arr (strings_json a)) w en_apart ∙ also in
    let (d', w') = set_at-some d to_zh v (arr (strings_json b)) still in
    apply_entries-some e (commit a b) f (
      write_entries_arr e follows to_en (strings_json a) ((to_zh, arr (strings_json b)) ∷ [])
        f.draft
      ∙ ap (λ o. o >>= write_entries e follows ((to_zh, arr (strings_json b)) ∷ [])) w
      ∙ write_entries_arr e follows to_zh (strings_json b) [] d
      ∙ ap (λ o. o >>= write_entries e follows []) w')

-- Where the draft has both locales' bullets: either the rows say that the edit does nothing, and the editor hands
-- nothing to the form, or what it hands over is applied, the rows of the draft are then as their edit makes them,
-- and both locales are equally long.
pub bullet_entries-refines :
    (e : Setting) (field : BulletsField) (edit : RowEdit {0} Unit) (f : EditorForm) {u v : Json}
    → get_at f.draft (bullets_path en) ≡ some u
    → get_at f.draft (bullets_path zh_hant) ≡ some v
    → (bullet_entries field f.draft edit ≡ none)
        × (edit_bullets field edit (bullet_rows f.draft) ≡ none)
      ⊎ ((entries : Entries) × (g : EditorForm) × (bullet_entries field f.draft edit ≡ some entries)
          × (apply_entries e entries f ≡ some g)
          × (edit_bullets field edit (bullet_rows f.draft) ≡ some (bullet_rows g.draft))
          × (length (bullets_of g.draft en) ≡ length (bullets_of g.draft zh_hant)))
bullet_entries-refines e field edit f there also = elim (edit-Edited field f.draft edit) [
  | inl nothing ↦ inl nothing
  | inr (a, b, made, same, rows) ↦
      let (g, applied) = commit-applied e a b f there also in
      let (p, q) = commit-get_strings e a b f applied in
      inr (
        commit a b,
        g,
        made,
        applied,
        rows ∙ ap some (sym (bullet_rows-equal g.draft a b p q same)),
        ap length p ∙ same ∙ sym (ap length q),
      )
]
