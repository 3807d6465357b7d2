-- ===== src/Editor/Lifetime/Reopened.antt =====
-- What the tab keeps of a form that is left, and how the form opens again.
use anthonyzng_web.Base.{
  sym, Bool, ap, Bool-cases, not, false, inr, inl, none, if_both, true, some, List, ◌⊎◌, ◌∙◌,
  Option, ◌≡◌, refl,
}
use anthonyzng_web.Editor.Lifetime.Events.{Outcome, event-Outcome, synced-IsQuiet}
use anthonyzng_web.Editor.{
  same_shape, read_kept, initial, base_of_item, row_of, at_login, initial_of, same_draft, Json,
  clean_form, same_base, opened_with, Text, Kept, open_form, at_login, Place, Setting, EditorForm,
  at_form, item_of, synced, kept_of, is_dirty,
}
use anthonyzng_web.Editor.Answers.Reported.{Untouched}
use anthonyzng_web.Editor.Lifetime.{took, then_event, opened, OpenForm}
use anthonyzng_web.Base.Text.Laws.{text_eq_refl}

-- What the tab keeps for the form is its draft, where that differs from the row.
abbrev pub KeepsTyping : Setting → EditorForm → Type 0
KeepsTyping e f = f.kept ≡ kept_of e false f

synced-KeepsTyping :
    (e : Setting) (f : EditorForm) → f.place ≡ at_form → KeepsTyping e (synced e false f)
unfolding synced kept_of is_dirty item_of
synced-KeepsTyping e f h = rw h refl

opened_with-place :
    (e : Setting) (kept : Option Kept) (f : EditorForm) → (opened_with e kept f).place ≡ f.place
opened_with-place e none f = refl
opened_with-place e (some k) f =
    if_both (λ (g : EditorForm). g.place ≡ f.place) (same_draft k.draft f.draft) refl refl

kept_of-Untouched :
    (e : Setting) (f g : EditorForm) → Untouched f g → KeepsTyping e f → KeepsTyping e g
unfolding kept_of is_dirty item_of
kept_of-Untouched e f g (draft, slug, rows, kept, _, _) h = kept ∙ h ∙ rw (draft, slug, rows) refl

-- The form itself, or the login that the end of the session leads to.
abbrev pub IsLeft : Place → Type 0
IsLeft p = (p ≡ at_form) ⊎ (p ≡ at_login)

away-KeepsTyping :
    (e : Setting) (full : Bool) (g : EditorForm)
    → g.place ≡ at_login
    → KeepsTyping e g
    → KeepsTyping e (synced e full g)
unfolding synced kept_of is_dirty item_of
away-KeepsTyping e full g here h = rw here h

-- At the form, the storage took the write that was asked of it.
written-KeepsTyping :
    (e : Setting) (full before : Bool) (g : EditorForm)
    → g.place ≡ at_form
    → took g.place full before ≡ true
    → KeepsTyping e (synced e full g)
written-KeepsTyping e false before g here t = synced-KeepsTyping e g here
written-KeepsTyping e true before g here t =
    absurd (let bad : false ≡ true = ap (λ p. took p true before) (sym here) ∙ t in cc)

event-KeepsTyping :
    (e : Setting) (full before : Bool) (f g : EditorForm)
    → f.place ≡ at_form
    → (before ≡ true → KeepsTyping e f)
    → took g.place full before ≡ true
    → Outcome f g
    → IsLeft g.place
    → KeepsTyping e (synced e full g)
event-KeepsTyping e full before f g here h t (inl (stays, _, _)) left =
    written-KeepsTyping e full before g (stays ∙ here) t
event-KeepsTyping e full before f g here h t (inr (inl (stays, _))) left =
    written-KeepsTyping e full before g (stays ∙ here) t
event-KeepsTyping e full before f g here h t (inr (inr (inl (stays, _)))) left =
    written-KeepsTyping e full before g (stays ∙ here) t
event-KeepsTyping e full before f g here h t (inr (inr (inr (inl (away, quiet))))) left =
    away-KeepsTyping e full g away
      (kept_of-Untouched e f g quiet (h (ap (λ p. took p full before) (sym away) ∙ t)))
event-KeepsTyping e full before f g here h t (inr (inr (inr (inr (n, m))))) (inl at) = absurd (n at)
event-KeepsTyping e full before f g here h t (inr (inr (inr (inr (n, m))))) (inr at) = absurd (m at)

opened-KeepsTyping :
    (e : Setting) (full : Bool) (slug : Option Text) (rows : List Json) (kept : Option Kept)
    → not full ≡ true
    → KeepsTyping e (open_form e full slug rows kept)
unfolding open_form
opened-KeepsTyping e true slug rows kept t = absurd (cc)
opened-KeepsTyping e false slug rows kept t =
    let clean : EditorForm = record (clean_form e slug rows) { kept = kept } in
    let read = read_kept clean.draft kept in
    synced-KeepsTyping e (opened_with e read clean) (opened_with-place e read clean)

-- Where the storage took the last write, the tab keeps the draft of the form together with the version that it
-- started from, or nothing where the draft is what the server has: at the form, and when the session has ended.
pub form-KeepsTyping :
    (e : Setting) {took_it : Bool} (f : EditorForm)
    → OpenForm e took_it f
    → took_it ≡ true
    → IsLeft f.place
    → KeepsTyping e f
form-KeepsTyping e _ (opened full slug rows kept) t left =
    opened-KeepsTyping e full slug rows kept t
form-KeepsTyping e _ (then_event {before} {f} {g} full r here event) t left =
    event-KeepsTyping e full before f g here (λ b. form-KeepsTyping e f r b (inl here)) t
      (event-Outcome e event) (rw (synced-IsQuiet e full g).0 at left)

pub same_base_refl : (b : Option Text) → same_base b b ≡ true
same_base_refl none = refl
same_base_refl (some s) = text_eq_refl s

-- A form that opens on a kept draft of its shape, other than the row's.
pub open_form-some :
    (e : Setting) (full : Bool) (slug : Option Text) (rows : List Json) (k : Kept)
    → same_shape k.draft (initial_of e.collection (row_of slug rows)) ≡ true
    → same_draft k.draft (initial_of e.collection (row_of slug rows)) ≡ false
    → let g = open_form e full slug rows (some k) in
      (g.draft ≡ k.draft)
      × (g.restored ≡ some (not (same_base k.base (base_of_item (row_of slug rows)))))
unfolding open_form synced item_of
open_form-some e full slug rows k s h = rw (s, h) (refl, refl)

open_form-none :
    (e : Setting) (full : Bool) (slug : Option Text) (rows : List Json)
    → let g = open_form e full slug rows none in
      (g.draft ≡ initial_of e.collection (row_of slug rows)) × (g.restored ≡ none)
unfolding open_form synced
open_form-none e full slug rows = (refl, refl)

-- A form that is left at any moment without an agreement to lose its changes, or by the end of the session, after
-- the storage took its last write, and whose draft has the shape of the form: opened again on the same rows it has
-- its draft back, not stale, or opens on the row, where the draft was what the server has.
pub form-reopened :
    (e : Setting) (full : Bool) (f : EditorForm)
    → OpenForm e true f
    → IsLeft f.place
    → same_shape f.draft (initial e f) ≡ true
    → let g = open_form e full f.slug f.rows f.kept in
      ((is_dirty e f ≡ true) × (g.draft ≡ f.draft) × (g.restored ≡ some false))
      ⊎ ((is_dirty e f ≡ false) × (same_draft f.draft g.draft ≡ true) × (g.restored ≡ none))
unfolding kept_of is_dirty item_of
form-reopened e full f r left shape =
    let kept = form-KeepsTyping e f r refl left in
    let opening : Option Kept → EditorForm = open_form e full f.slug f.rows in
    elim (Bool-cases (same_draft f.draft (initial e f))) [
      | inl s ↦
          let bare : f.kept ≡ none = kept ∙ rw s refl in
          let (d, n) = open_form-none e full f.slug f.rows in
          inr (
            ap not s,
            ap (λ k. same_draft f.draft (opening k).draft) bare ∙ ap (same_draft f.draft) d ∙ s,
            ap (λ k. (opening k).restored) bare ∙ n,
          )
      | inr s ↦
          let base = base_of_item (row_of f.slug f.rows) in
          let k : Kept = record { draft = f.draft; base = base } in
          let held : f.kept ≡ some k = kept ∙ rw s refl in
          let (d, n) = open_form-some e full f.slug f.rows k shape s in
          inl (
            ap not s,
            ap (λ k. (opening k).draft) held ∙ d,
            ap (λ k. (opening k).restored) held ∙ n ∙ rw (same_base_refl base) refl,
          )
    ]
