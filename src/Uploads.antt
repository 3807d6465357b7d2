-- ===== src/Uploads.antt =====
-- frontend/src/admin/hooks/useFileUpload.ts: one upload at a time, as a state machine, and
-- frontend/src/admin/hooks/useConfirmedAction.ts: a destructive action behind a dialog.
-- `check` and `refusals` are what the page passes: its own check of a file, and the messages by code.
pub mod Serial
use anthonyzng_web.Base.{
  ℕ, ◌≡◌, ◌≢◌, Bool, true, false, Option, none, some, List, [], ◌∷◌, ◌==◌, if◌then◌else◌,
}
use anthonyzng_web.Base.Text.{Text, units}
use anthonyzng_web.Base.Dict.{lookup}
use anthonyzng_web.Client.{
  Result, done, failed, Failure, aborted, network_error, http_error, payload_error, HttpError,
}
use anthonyzng_web.ContentList.{is_unauthorized}

-- The texts of `FileUploadMessages` that a failure may show.
pub record UploadMessages : Type 0 where
  pub refusals : List (Text × Text)
  pub rejected : Text
  pub generic : Text

abbrev pub or_text : Text → Option Text → Text
or_text d none = d
or_text d (some s) = s

-- `refusal(messages, code)`
unfoldable pub refusal : UploadMessages → Text → Text
refusal messages code = or_text messages.rejected (lookup code messages.refusals)

unfoldable pub failure_text : Failure → UploadMessages → Text
failure_text (http_error e) messages =
    if e.status == 413
    then refusal messages (units "file_too_large")
    else if e.status == 422
    then refusal messages e.code
    else messages.generic
failure_text _ messages = messages.generic

-- What goes to the live region.
pub data Announcement : Type 0 where
  uploading_now uploaded upload_failed upload_busy : Announcement

-- `requests` counts the uploads that were started; `shown` is what `onUploaded` received.
pub record Uploader (File Stored : Type 0) : Type 0 where
  pub request : Option File
  pub uploading : Bool
  pub error : Option Text
  pub said : List Announcement
  pub shown : List Stored
  pub expired : Bool

module _ {File Stored : Type 0} where
  abbrev pub say : Announcement → Uploader File Stored → Uploader File Stored
  say a u = record u { said = a ∷ u.said }

  abbrev pub pick_checked : Option Text → File → Uploader File Stored → Uploader File Stored
  pick_checked (some refused) file u = record u { error = some refused }
  pick_checked none file u = record u {
    request = some file;
    error = none;
    uploading = true;
    said = uploading_now ∷ u.said;
  }

  abbrev pub pick_in :
      Option File → Option Text → File → Uploader File Stored → Uploader File Stored
  pick_in (some _) verdict file u = say upload_busy u
  pick_in none verdict file u = pick_checked verdict file u

  -- `onChange` with a file, up to the request
  unfoldable pub pick : (File → Option Text) → File → Uploader File Stored → Uploader File Stored
  pick check file u = pick_in u.request (check file) file u

  abbrev pub finished : Uploader File Stored → Uploader File Stored
  finished u = record u { request = none; uploading = false }

  abbrev pub not_uploaded : UploadMessages → Failure → Uploader File Stored → Uploader File Stored
  not_uploaded messages aborted u = u
  not_uploaded messages e u =
      if is_unauthorized e
      then record u { expired = true }
      else record u { error = some (failure_text e messages); said = upload_failed ∷ u.said }

  -- The answer to the upload, `finally` included
  unfoldable pub settle :
      UploadMessages → Result Stored → Uploader File Stored → Uploader File Stored
  settle messages (done stored) u =
      finished (record u { shown = stored ∷ u.shown; error = none; said = uploaded ∷ u.said })
  settle messages (failed e) u = finished (not_uploaded messages e u)

  abbrev pub no_upload : Uploader File Stored
  no_upload = record {
    request = none;
    uploading = false;
    error = none;
    said = [];
    shown = [];
    expired = false;
  }

  -- One event: a file is picked, or the answer to the upload on its way comes.
  pub data Step (check : File → Option Text) (messages : UploadMessages)
      : Uploader File Stored → Uploader File Stored → Type 0 where
    picked : {u : Uploader File Stored} (file : File) → Step check messages u (pick check file u)
    settled :
        {u : Uploader File Stored} (r : Result Stored) {file : File}
        → u.request ≡ some file
        → Step check messages u (settle messages r u)

  pub data Reachable (check : File → Option Text) (messages : UploadMessages)
      : Uploader File Stored → Type 0 where
    at_rest : Reachable check messages no_upload
    and_then :
        {u v : Uploader File Stored}
        → Reachable check messages u
        → Step check messages u v
        → Reachable check messages v

-- The dialog of `useConfirmedAction`.
pub record Dialog (Target : Type 0) : Type 0 where
  pub target : Target
  pub busy : Bool
  pub failed_text : Bool

-- How a confirmed request ends: the page went away, the session ended, the dialog stays open with an
-- error, or the action is done.
pub data Ended : Type 0 where
  gone session_over stays is_done : Ended

abbrev pub is_status : ℕ → Failure → Bool
is_status n (http_error e) = e.status == n
is_status n _ = false

abbrev pub counts_as_done : (not_found_is_done : Bool) → Failure → Bool
counts_as_done true e = is_status 404 e
counts_as_done false e = false

module _ {Target : Type 0} where
  unfoldable pub open_dialog : Target → Option (Dialog Target)
  open_dialog target = some (record { target = target; busy = false; failed_text = false })

  -- `confirm` up to its request, and the target that the request is about
  unfoldable pub confirm : Option (Dialog Target) → Option (Dialog Target) × Option Target
  confirm none = (none, none)
  confirm (some d) =
      if d.busy
      then (some d, none)
      else (some (record { target = d.target; busy = true; failed_text = false }), some d.target)

  abbrev pub ended_with : Bool → Target → Failure → Option (Dialog Target) × Ended
  ended_with flag target e =
      if is_unauthorized e
      then (none, session_over)
      else if counts_as_done flag e
      then (none, is_done)
      else (some (record { target = target; busy = false; failed_text = true }), stays)

  -- The rest of `confirm`: the dialog afterwards, and how the request ended.
  unfoldable pub conclude :
      {R : Type 0}
      → (not_found_is_done : Bool) → Dialog Target
      → Result R
      → Option (Dialog Target) × Ended
  conclude flag d (done _) = (none, is_done)
  conclude flag d (failed aborted) = (some d, gone)
  conclude flag d (failed e) = ended_with flag d.target e
