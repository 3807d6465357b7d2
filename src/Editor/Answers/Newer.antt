-- ===== src/Editor/Answers/Newer.antt =====
-- What becomes of typing that went on while a save was on its way, and of the version of the row.
use anthonyzng_web.Base.{
  ◌≡◌, refl, sym, ap, ◌∙◌, ◌↔◌, ◌⊎◌, inl, inr, Bool, true, false, not, ◌&&◌, Option, none, some,
  List, [], ◌∷◌, arith,
}
use anthonyzng_web.Base.Text.{Text}
use anthonyzng_web.Base.Text.Laws.{text_eq_refl, text_eq-cases}
use anthonyzng_web.Json.{Json}
use anthonyzng_web.Draft.{same_draft}
use anthonyzng_web.Api.{update_item}
use anthonyzng_web.Editor.{
  Setting, EditorForm, at_form, at_list, item_of, row_of, find_row, row_slug, row_version,
}
use anthonyzng_web.Editor.Rows.{replaced, row_changed}
use anthonyzng_web.Editor.Saving.{save_request, request_of}
use anthonyzng_web.Editor.Answers.{PageStore, is_newer, after_save, take_saved, take_latest}

-- A row that replaces the one of its slug is the one found there.
find_row-replaced :
    (slug : Text) (row : Json) (rows : List Json) {old : Json}
    → row_slug row ≡ slug
    → find_row slug rows ≡ some old
    → find_row slug (replaced row rows) ≡ some row
unfolding find_row
find_row-replaced slug row [] here h = absurd (cc)
find_row-replaced slug row (entry ∷ rows) here h = elim (text_eq-cases (row_slug entry) slug) [
  | inl (_, t) ↦ rw (here, t, here, text_eq_refl slug) refl
  | inr (_, t) ↦ rw (here, t, t) (find_row-replaced slug row rows here (rw t at h))
]

-- The loaded row, once an answer has replaced it.
item_of-row_changed :
    (row : Json) (f : EditorForm) {old : Json}
    → item_of f ≡ some old
    → f.slug ≡ some (row_slug row)
    → item_of (row_changed row f) ≡ some row
unfolding item_of row_changed
item_of-row_changed row f {old} h here =
    ap (λ s. row_of s (replaced row f.rows)) here
    ∙ find_row-replaced (row_slug row) row f.rows refl (ap (λ s. row_of s f.rows) (sym here) ∙ h)

after_save-leaves :
    (newer : Bool) (item : Option Json) (page : PageStore) (saved : Json) (f : EditorForm)
    → f.place ≡ at_form
    → ((after_save newer item page saved f).place ≡ at_list) ↔ (newer ≡ false)
unfolding row_changed
after_save-leaves false item page saved f here = (λ h. refl, λ h. refl)
after_save-leaves true none page saved f here = (λ h. absurd (cc), λ h. absurd (cc))
after_save-leaves true (some _) page saved f here =
    (λ h. absurd (let bad : at_form ≡ at_list = sym here ∙ h in cc), λ h. absurd (cc))

neither_false : (a b : Bool) → ((not a && not b) ≡ false) ↔ ((a ≡ true) ⊎ (b ≡ true))
neither_false a b = ground arith

module _ (e : Setting) where
  -- The form goes back to the list exactly where the draft is what was sent, or what the server has
  -- made of it.
  pub take_saved-leaves :
      (page : PageStore) (saved sent : Json) (f : EditorForm)
      → f.place ≡ at_form
      → ((take_saved e page saved sent f).place ≡ at_list) ↔ (
          (same_draft f.draft sent ≡ true)
          ⊎ (same_draft f.draft (e.collection.to_draft saved) ≡ true))
  unfolding take_saved is_newer
  take_saved-leaves page saved sent f here =
      let (to, from) =
        after_save-leaves (is_newer e saved sent f.draft) (item_of f) page saved f here in
      let (one, other) =
        neither_false (same_draft f.draft sent)
          (same_draft f.draft (e.collection.to_draft saved)) in
      (λ h. one (to h), λ h. from (other h))

  -- An edit that was typed on stays at the form with its draft, on the version just saved, which the
  -- next save matches.
  pub take_saved-stays :
      (page : PageStore) (saved sent old : Json) (f : EditorForm)
      → item_of f ≡ some old
      → f.slug ≡ some (row_slug saved)
      → is_newer e saved sent f.draft ≡ true
      → let g = take_saved e page saved sent f in
        (g.draft ≡ f.draft)
        × (g.place ≡ f.place)
        × (g.saving ≡ false)
        × (save_request e g
            ≡ update_item e.encode e.collection
                (row_slug saved)
                (e.collection.to_payload f.draft)
                (row_version saved))
  unfolding take_saved save_request row_changed item_of
  take_saved-stays page saved sent old f item same newer =
      rw (newer, item)
        (
          refl,
          refl,
          refl,
          ap (λ i. request_of e i (e.collection.to_payload f.draft))
              (item_of-row_changed saved f item same),
        )

  -- The latest version, once it is loaded after a conflict, is what the form shows and what the next
  -- save matches; nothing is left of the conflict.
  pub take_latest-version :
      (row old : Json) (f : EditorForm)
      → item_of f ≡ some old
      → f.slug ≡ some (row_slug row)
      → let g = take_latest e (some row) f in
        (g.draft ≡ e.collection.to_draft row)
        × (g.conflict ≡ false)
        × (save_request e g
            ≡ update_item e.encode e.collection
                (row_slug row)
                (e.collection.to_payload (e.collection.to_draft row))
                (row_version row))
  unfolding take_latest save_request row_changed item_of
  take_latest-version row old f item same = (
    refl,
    refl,
    ap (λ i. request_of e i (e.collection.to_payload (e.collection.to_draft row)))
        (item_of-row_changed row f item same),
  )
