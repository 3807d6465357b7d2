-- ===== src/Editor/Answers.antt =====
-- The answers of the editor's requests (frontend/src/admin/editor/ContentEditorForm.tsx): a saved row
-- (`keepNewerChanges` where typing went on), a failure, and the latest version after a conflict.
pub mod Reported
pub mod Newer
use anthonyzng_web.Base.{
  Bool, true, false, not, ◌&&◌, Option, none, some, List, [], ◌∷◌, map, if◌then◌else◌, ◌==◌, ◌>>=◌,
}
use anthonyzng_web.Base.Text.{Text, text_eq}
use anthonyzng_web.Json.{Json, str}
use anthonyzng_web.Draft.{set_at, same_draft}
use anthonyzng_web.Client.{Result, done, failed, Failure, aborted, http_error, HttpError}
use anthonyzng_web.Validation.{is_some, slug_key, slug_taken}
use anthonyzng_web.Validation.ErrorSlots.{error_slots, map_server_fields, body_key, Placed}
use anthonyzng_web.Editor.{
  Setting, Kept, stored, FormError, body_rejected, changed_elsewhere, gone, too_large, save_failed,
  network_failed, field_rejected, at_list, at_login, at_edit_page, EditorForm, item_of, mode_of,
  row_slug, row_version,
}
use anthonyzng_web.Editor.Rows.{row_changed}
use anthonyzng_web.Editor.Typing.{is_create}
use anthonyzng_web.Editor.Saving.{with_errors}

-- The draft that a new row's edit page starts with: the slug is the one the row was created with.
abbrev pub kept_for : Json → Json → Option Kept
kept_for saved newer = do
  draft ← set_at newer slug_key (str (row_slug saved))
  some (record { draft = draft; base = some (row_version saved) })

-- The storage of that page: whether it takes the draft, and what it holds before.
pub record PageStore : Type 0 where
  pub full : Bool
  pub before : Option Kept

abbrev pub stored_for : PageStore → Option Kept → Option Kept
stored_for page none = page.before
stored_for page (some k) = stored page.full k page.before

-- `keepNewerChanges`
abbrev pub keep_newer : Option Json → PageStore → Json → EditorForm → EditorForm
keep_newer none page saved f = record f {
  sent = none;
  kept = none;
  place = at_edit_page (row_slug saved) (stored_for page (kept_for saved f.draft));
}
keep_newer (some _) page saved f = record (row_changed saved f) {
  restored = none;
  saving = false;
  sent = none;
}

abbrev pub to_list : EditorForm → EditorForm
to_list f = record f { sent = none; kept = none; place = at_list }

abbrev pub message_for : Text → FormError
message_for path = if text_eq path body_key then body_rejected else field_rejected path

abbrev pub with_placed : Placed → EditorForm → EditorForm
with_placed placed f = with_errors placed.errors (map message_for placed.unmatched) f

abbrev pub fields_of : Option (List (Text × Text)) → List (Text × Text)
fields_of none = []
fields_of (some fields) = fields

-- `setSaving(false)`, and no request is on its way.
abbrev pub ended : EditorForm → EditorForm
ended f = record f { saving = false; sent = none }

abbrev pub after_save : (newer : Bool) → Option Json → PageStore → Json → EditorForm → EditorForm
after_save true item page saved f = keep_newer item page saved f
after_save false item page saved f = to_list f

module _ (e : Setting) where
  -- Typing of which the saved row knows nothing.
  unfoldable pub is_newer : Json → Json → Json → Bool
  is_newer saved sent draft =
      not (same_draft draft sent) && not (same_draft draft (e.collection.to_draft saved))

  unfoldable pub take_saved : PageStore → Json → (sent : Json) → EditorForm → EditorForm
  take_saved page saved sent f = after_save (is_newer saved sent f.draft) (item_of f) page saved f

  -- The statuses after 401.
  abbrev pub http_failed : HttpError → (sent : Json) → EditorForm → EditorForm
  http_failed h sent f =
      if h.status == 422 && is_some h.fields
      then with_placed
          (map_server_fields (fields_of h.fields)
            (error_slots e.collection sent (mode_of (item_of f))))
          f
      else if h.status == 409 && is_create (mode_of (item_of f))
      then with_errors ((slug_key, slug_taken) ∷ []) [] f
      else if h.status == 412
      then with_errors [] (changed_elsewhere ∷ []) (record f { conflict = true })
      else if h.status == 404
      then with_errors [] (gone ∷ []) f
      else if h.status == 413
      then with_errors [] (too_large ∷ []) f
      else with_errors [] (save_failed ∷ []) f

  abbrev pub failed_save : Failure → (sent : Json) → EditorForm → EditorForm
  failed_save aborted sent f = f
  failed_save (http_error h) sent f =
      if h.status == 401 then record f { place = at_login } else http_failed h sent f
  failed_save _ sent f = with_errors [] (network_failed ∷ []) f

  -- The `catch` of `onSubmit`
  unfoldable pub take_failure : Failure → (sent : Json) → EditorForm → EditorForm
  take_failure failure sent f = failed_save failure sent (ended f)

  -- What comes of the request: the saved row, or why there is none.
  unfoldable pub take_result : PageStore → Result Json → (sent : Json) → EditorForm → EditorForm
  take_result page (done saved) sent f = take_saved page saved sent f
  take_result page (failed failure) sent f = take_failure failure sent f

  abbrev pub reloaded : Option Json → EditorForm → EditorForm
  reloaded none f = record f { conflict = false; form_errors = gone ∷ [] }
  reloaded (some row) f = record (row_changed row f) {
    draft = e.collection.to_draft row;
    restored = none;
    slug_edited = false;
    errors = [];
    form_errors = [];
    conflict = false;
    kept = none;
  }

  -- `latest.onDone`, with the row as the server has it, if it is still there.
  unfoldable pub take_latest : Option Json → EditorForm → EditorForm
  take_latest row f = reloaded row f
