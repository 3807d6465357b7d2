-- ===== src/Inbox.antt =====
-- The read state of the messages in frontend/src/admin/pages/MessagesPage.tsx, with the unread badge of
-- frontend/src/admin/shell/AdminLayout.tsx (`setUnread`, which stops at 0).
-- A message's `read_at` is the moment it was read. The answer to a change is the server's message.
pub mod Serial
pub mod Paging
use anthonyzng_web.Base.{
  ℕ, zero, suc, ◌+◌, ◌-◌, Bool, true, false, not, ◌||◌, Option, none, some, List, [], ◌∷◌, map,
  ◌==◌, if◌then◌else◌, keep_if,
}
use anthonyzng_web.Base.Text.{Text}
use anthonyzng_web.Client.{
  Result, done, failed, Failure, aborted, network_error, http_error, payload_error,
}
use anthonyzng_web.ContentList.{is_unauthorized}

pub record Message : Type 0 where
  pub id : ℕ
  pub read_at : Option Text

pub record Inbox : Type 0 where
  pub messages : List Message
  pub total : ℕ
  pub open_ids : List ℕ
  pub pending : List ℕ
  -- The badge, once a count is known.
  pub unread : Option ℕ
  pub signed_out : Bool

abbrev pub is_read : Option Text → Bool
is_read none = false
is_read (some _) = true

unfoldable pub holds_id : ℕ → List ℕ → Bool
holds_id n [] = false
holds_id n (m ∷ ms) = m == n || holds_id n ms

abbrev pub drop_id : ℕ → List ℕ → List ℕ
drop_id n ids = keep_if (λ m. not (m == n)) ids

-- `setUnread(count => …)`
abbrev pub less_one : Option ℕ → Option ℕ
less_one none = none
less_one (some n) = some (n - 1)

abbrev pub one_more : Option ℕ → Option ℕ
one_more none = none
one_more (some n) = some (suc n)

-- `replace`
abbrev pub replace_message : Message → List Message → List Message
replace_message updated items = map (λ m. if m.id == updated.id then updated else m) items

abbrev pub hold : ℕ → Inbox → Inbox
hold n s = record s { pending = n ∷ s.pending }

abbrev pub release : ℕ → Inbox → Inbox
release n s = record s { pending = drop_id n s.pending }

abbrev pub toggled : ℕ → Inbox → Inbox
toggled n s = record s {
  open_ids = if holds_id n s.open_ids then drop_id n s.open_ids else n ∷ s.open_ids;
}

-- `toggle` up to its request; the flag says that the message is to be marked read.
unfoldable pub toggle : Message → Inbox → Inbox × Bool
toggle m s =
    if holds_id m.id s.open_ids
    then (toggled m.id s, false)
    else if is_read m.read_at
    then (toggled m.id s, false)
    else if holds_id m.id s.pending
    then (toggled m.id s, false)
    else (hold m.id (toggled m.id s), true)

abbrev pub not_changed : Failure → Inbox → Inbox
not_changed e s = if is_unauthorized e then record s { signed_out = true } else s

-- The answer to marking a message read
unfoldable pub marked_read : Message → Result Message → Inbox → Inbox
marked_read m (done updated) s = release m.id (record s {
  messages = replace_message updated s.messages;
  unread = if is_read updated.read_at then less_one s.unread else s.unread;
})
marked_read m (failed e) s = release m.id (not_changed e s)

-- `markUnread` up to its request
unfoldable pub mark_unread : Message → Inbox → Inbox × Bool
mark_unread m s = if holds_id m.id s.pending then (s, false) else (hold m.id s, true)

abbrev pub went_unread : Message → Message → Bool
went_unread before updated = if is_read before.read_at then not (is_read updated.read_at) else false

-- The answer to marking it unread
unfoldable pub marked_unread : Message → Result Message → Inbox → Inbox
marked_unread m (done updated) s = release m.id (record s {
  messages = replace_message updated s.messages;
  unread = if went_unread m updated then one_more s.unread else s.unread;
  open_ids = drop_id m.id s.open_ids;
})
marked_unread m (failed e) s = release m.id (not_changed e s)

-- `onDone` of a deletion, before the page is fetched again
unfoldable pub message_removed : Message → Inbox → Inbox
message_removed m s = record s {
  messages = keep_if (λ x. not (x.id == m.id)) s.messages;
  total = s.total - 1;
  unread = if is_read m.read_at then s.unread else less_one s.unread;
}
