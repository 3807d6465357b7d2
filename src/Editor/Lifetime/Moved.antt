-- ===== src/Editor/Lifetime/Moved.antt =====
-- The edit page of a new row that was typed on while it was being created.
use anthonyzng_web.Base.{
  ◌≡◌, refl, ap, ◌∙◌, ◌⊎◌, inl, inr, Bool, true, false, not, none, some, List, ◌∷◌, Bool-cases,
}
use anthonyzng_web.Base.Text.{Text, split_dot}
use anthonyzng_web.Base.Text.Laws.{text_eq-cases}
use anthonyzng_web.Json.{Json, str, obj, Members, member, end, find, put}
use anthonyzng_web.Draft.{get_at, get_string, set_at, as_string, same_draft, set_in, store}
use anthonyzng_web.Draft.Access.{get_at-set_at, get_at-set_at-Diverge, Diverge}
use anthonyzng_web.DraftStore.{same_keys}
use anthonyzng_web.Collections.Shape.{member_keys}
use anthonyzng_web.Validation.{slug_key}
use anthonyzng_web.Editor.{
  synced, Setting, EditorForm, Kept, at_edit_page, item_of, find_row, row_slug, row_version,
  same_shape, open_form, initial_of, row_of, same_base, base_of_item,
}
use anthonyzng_web.Editor.Answers.{PageStore, is_newer, take_saved}
use anthonyzng_web.Editor.Lifetime.Reopened.{open_form-some, same_base_refl}

-- A write to a property that is there adds none.
member_keys-put :
    (key : Text) (v : Json) (ms : Members) {old : Json}
    → find key ms ≡ some old
    → member_keys (put key v ms) ≡ member_keys ms
unfolding find put
member_keys-put key v end here = absurd (cc)
member_keys-put key v (member k w ms) here = elim (text_eq-cases k key) [
  | inl (_, t) ↦ rw t refl
  | inr (_, t) ↦ rw t (ap (λ ks. k ∷ ks) (member_keys-put key v ms (rw t at here)))
]

set_at-slug :
    (ms : Members) (v : Json) → set_at (obj ms) slug_key v ≡ some (obj (put slug_key v ms))
unfolding set_at set_in split_dot store
set_at-slug ms v = refl

same_shape-put :
    (ms : Members) (v like : Json) {old : Json}
    → find slug_key ms ≡ some old
    → same_shape (obj ms) like ≡ true
    → same_shape (obj (put slug_key v ms)) like ≡ true
unfolding same_shape same_keys
same_shape-put ms v (obj b) here h = rw (member_keys-put slug_key v ms here) h
same_shape-put ms v _ here h = absurd (cc)

module _ (e : Setting) where
  -- What the edit page of the row shows of a draft that waits for it.
  abbrev pub ComesBack : Json → EditorForm → Type 0
  ComesBack d g =
      ((g.draft ≡ d) × (g.restored ≡ some false))
      ⊎ ((same_draft d g.draft ≡ true) × (g.restored ≡ none))

  -- A draft that says what the row says is not restored.
  opened-same :
      (full : Bool) (saved : Json) (rows : List Json) (k : Kept)
      → find_row (row_slug saved) rows ≡ some saved
      → same_shape k.draft (e.collection.to_draft saved) ≡ true
      → same_draft k.draft (e.collection.to_draft saved) ≡ true
      → let g = open_form e full (some (row_slug saved)) rows (some k) in
        (same_draft k.draft g.draft ≡ true) × (g.restored ≡ none)
  unfolding open_form synced
  opened-same full saved rows k there shape t = rw (there, shape, t) (t, refl)

  opened-ComesBack :
      (full : Bool) (saved d : Json) (rows : List Json)
      → find_row (row_slug saved) rows ≡ some saved
      → same_shape d (e.collection.to_draft saved) ≡ true
      → ComesBack d (
          open_form e full
            (some (row_slug saved))
            rows
            (some (record { draft = d; base = some (row_version saved) })))
  opened-ComesBack full saved d rows there shape =
      let k : Kept = record { draft = d; base = some (row_version saved) } in
      let server : initial_of e.collection (row_of (some (row_slug saved)) rows)
          ≡ e.collection.to_draft saved =
        ap (initial_of e.collection) there in
      elim (Bool-cases (same_draft d (e.collection.to_draft saved))) [
        | inl t ↦ inr (opened-same full saved rows k there shape t)
        | inr t ↦
            let (draft, stale) =
              open_form-some e full (some (row_slug saved)) rows k
                (ap (same_shape d) server ∙ shape) (ap (same_draft d) server ∙ t) in
            inl (
              draft,
              stale
                  ∙ ap (λ i. some (not (same_base (some (row_version saved)) (base_of_item i))))
                      there
                  ∙ ap (λ b. some (not b)) (same_base_refl (some (row_version saved))),
            )
      ]

  -- Where the storage takes it, the typing that a new row's save did not carry comes back on the edit page that the
  -- form moves to.
  pub take_saved-moves :
      (page : PageStore) (saved sent slug : Json) (f : EditorForm) (ms : Members)
      → page.full ≡ false
      → item_of f ≡ none
      → f.draft ≡ obj ms
      → find slug_key ms ≡ some slug
      → same_shape f.draft (e.collection.to_draft saved) ≡ true
      → is_newer e saved sent f.draft ≡ true
      → (k : Kept) × ((take_saved e page saved sent f).place
          ≡ at_edit_page (row_slug saved) (some k))
        × (k.base ≡ some (row_version saved))
        × (get_string k.draft slug_key ≡ row_slug saved)
        × ((other : Text)
            → Diverge (split_dot slug_key) (split_dot other)
            → get_at k.draft other ≡ get_at f.draft other)
        × ((full : Bool) (rows : List Json)
            → find_row (row_slug saved) rows ≡ some saved
            → ComesBack k.draft (open_form e full (some (row_slug saved)) rows (some k)))
  unfolding take_saved get_string
  take_saved-moves page saved sent slug f ms takes item shape here like newer =
      let v = str (row_slug saved) in
      let d = obj (put slug_key v ms) in
      let w : set_at f.draft slug_key v ≡ some d = rw shape (set_at-slug ms v) in
      (
        record { draft = d; base = some (row_version saved) },
        rw (newer, item, w, takes) refl,
        refl,
        ap as_string (get_at-set_at f.draft slug_key v w),
        λ other apart. get_at-set_at-Diverge f.draft slug_key other v w apart,
        λ full rows there.
            opened-ComesBack full saved d rows there
              (same_shape-put ms v (e.collection.to_draft saved) here (rw shape at like)),
      )
