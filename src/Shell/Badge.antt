-- ===== src/Shell/Badge.antt =====
-- The summary of frontend/src/admin/shell/AdminLayout.tsx (`refresh` and `setUnread`): one request at a
-- time, one more after a forced call, and a count that no older answer overwrites.
-- A summary is known by its count of unread messages. While a request runs, `running` holds the inbox
-- version it was made at. The layout stays, so no request of its lifetime is aborted.
pub mod Fresh
use anthonyzng_web.Base.{ℕ, suc, Bool, true, false, ◌||◌, Option, none, some, ◌==◌, if◌then◌else◌}
use anthonyzng_web.Client.{Result, done, failed, Failure, aborted, HttpError}
use anthonyzng_web.ContentList.{is_unauthorized}

pub data SummaryStatus : Type 0 where
  loading ready unloaded : SummaryStatus

pub record Badge : Type 0 where
  pub summary : Option ℕ
  pub summary_status : SummaryStatus
  pub unread : Option ℕ
  pub version : ℕ
  pub running : Option ℕ
  pub again : Bool
  pub has_expired : Bool

abbrev pub or_loading : SummaryStatus → SummaryStatus
or_loading ready = ready
or_loading _ = loading

abbrev pub or_unloaded : SummaryStatus → SummaryStatus
or_unloaded ready = ready
or_unloaded _ = unloaded

-- The request that `load` makes; `true` says that one is made.
abbrev pub load_unless : Option ℕ → (force : Bool) → Badge → Badge × Bool
load_unless (some _) force b = (record b { again = b.again || force }, false)
load_unless none force b =
    (record b { running = some b.version; summary_status = or_loading b.summary_status }, true)

-- `refresh({ force })`
unfoldable pub refresh : (force : Bool) → Badge → Badge × Bool
refresh force b = load_unless b.running force b

-- What `setUnread` is given: a count, or a change of the count, cut off at 0.
pub data UnreadUpdate : Type 0 where
  count_is : ℕ → UnreadUpdate
  count_changes : (ℕ → ℕ) → UnreadUpdate

abbrev pub updated : UnreadUpdate → Option ℕ → Option ℕ
updated (count_is count) current = some count
updated (count_changes change) none = none
updated (count_changes change) (some current) = some (change current)

-- `setUnread`
unfoldable pub set_unread : UnreadUpdate → Badge → Badge
set_unread update b = record b { version = suc b.version; unread = updated update b.unread }

abbrev pub with_summary : ℕ → (version : ℕ) → Badge → Badge
with_summary count version b = record b {
  summary = some count;
  unread = if b.version == version then some count else b.unread;
  summary_status = ready;
}

abbrev pub without_summary : Failure → Badge → Badge
without_summary aborted b = b
without_summary e b =
    if is_unauthorized e
    then record b { has_expired = true }
    else record b { summary_status = or_unloaded b.summary_status }

abbrev pub answered : Result ℕ → (version : ℕ) → Badge → Badge
answered (done count) version b = with_summary count version b
answered (failed e) version b = without_summary e b

-- The `finally`: a forced call that came meanwhile is followed by one more request.
abbrev pub follow_up : Bool → Badge → Badge × Bool
follow_up true b = load_unless none false (record b { running = none; again = false })
follow_up false b = (record b { running = none }, false)

abbrev pub take_running : Option ℕ → Result ℕ → Badge → Badge × Bool
take_running none r b = (b, false)
take_running (some version) r b = follow_up (answered r version b).again (answered r version b)

-- The answer to the running request, if there is one.
unfoldable pub take_summary : Result ℕ → Badge → Badge × Bool
take_summary r b = take_running b.running r b
