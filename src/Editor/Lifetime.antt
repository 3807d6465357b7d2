-- ===== src/Editor/Lifetime.antt =====
-- The life of one editor form (frontend/src/admin/editor/ContentEditorForm.tsx): its events, each
-- followed by the effect that keeps the draft, and the states they lead to.
pub mod Events
pub mod Reopened
pub mod Moved
pub mod Settles
use anthonyzng_web.Base.{◌≡◌, Bool, not, Option, some, List}
use anthonyzng_web.Base.Text.{Text}
use anthonyzng_web.Json.{Json}
use anthonyzng_web.Client.{Result}
use anthonyzng_web.Collections.Types.{ImageRef}
use anthonyzng_web.Editor.{Setting, EditorForm, Kept, Place, at_form, open_form, leave_form, synced}
use anthonyzng_web.Editor.Typing.{
  Entries, apply_entries, edit_slug, discard_restored, image_changed,
}
use anthonyzng_web.Editor.Saving.{save}
use anthonyzng_web.Editor.Answers.{PageStore, take_result, take_latest}

-- One event at the form, before the effect. An answer comes to the request that is on its way.
pub data EditorEvent (e : Setting) : EditorForm → EditorForm → Type 0 where
  typed :
      {f g : EditorForm} (entries : Entries)
      → apply_entries e entries f ≡ some g
      → EditorEvent e f g
  slug_typed : {f g : EditorForm} (value : Text) → edit_slug e value f ≡ some g → EditorEvent e f g
  discarded : {f : EditorForm} → EditorEvent e f (discard_restored e f)
  image_came : {f : EditorForm} (image : Option ImageRef) → EditorEvent e f (image_changed image f)
  submitted : {f : EditorForm} → EditorEvent e f (save e f).0
  was_answered :
      {f : EditorForm} (page : PageStore) (result : Result Json) {sent : Json}
      → f.sent ≡ some sent
      → EditorEvent e f (take_result e page result sent f)
  latest_came : {f : EditorForm} (row : Option Json) → EditorEvent e f (take_latest e row f)
  was_left : {f : EditorForm} → EditorEvent e f (leave_form e f)

-- Whether the storage took the last write that was asked of it, once the effect has run at the form
abbrev pub took : Place → (full before : Bool) → Bool
took at_form full before = not full
took _ full before = before

-- The states of a form, with whether the storage took the last write.
pub data OpenForm (e : Setting) : Bool → EditorForm → Type 0 where
  opened :
      (full : Bool) (slug : Option Text) (rows : List Json) (kept : Option Kept)
      → OpenForm e (not full) (open_form e full slug rows kept)
  then_event :
      {before : Bool} {f g : EditorForm} (full : Bool)
      → OpenForm e before f
      → f.place ≡ at_form
      → EditorEvent e f g
      → OpenForm e (took g.place full before) (synced e full g)
