-- ===== src/Tests/Admin.antt =====
-- Runs of the admin panel's requests, queries and kept drafts.
use anthonyzng_web.Base.{◌≡◌, ◌≢◌, refl, true, false, Option, none, some, [], ◌∷◌, Bool}
use anthonyzng_web.Base.Text.{Text, units, text_eq, text_lt}
use anthonyzng_web.Json.{Json, str, Members, member, end}
use anthonyzng_web.Client.{done, failed, aborted, network_error}
use anthonyzng_web.Inbox.{Message, Inbox, holds_id}
use anthonyzng_web.DraftStore.{
  same_keys, sort_texts, insert_text, join_comma, kept_json, read_draft, write_draft,
}
use anthonyzng_web.DraftStore.Roundtrip.{read_draft-write_draft}
use anthonyzng_web.Query.{
  Query, is_loading, is_failed, is_ready, ended_for, query_state, reload, take_answer, fresh,
  Reachable, at_first, after, came,
}
use anthonyzng_web.Query.Lifetime.{query_state-take_answer, query_state-reload}

-- Slugs are sent as they are.
abbrev plain : Text → Text
plain s = s

abbrev typed_draft : Members
typed_draft = member (units "slug") (str []) (member (units "name") (str (units "A")) end)

abbrev form_shape : Members
form_shape = member (units "name") (str []) (member (units "slug") (str []) end)

-- A storage that knows one text only.
abbrev print_one : Json → Text
print_one v = units "kept"

abbrev parse_one : Text → Option Json
parse_one s = some (kept_json typed_draft none)

same_form_shape : same_keys typed_draft form_shape ≡ true
unfolding same_keys sort_texts insert_text join_comma text_eq text_lt
same_form_shape = refl

read_draft-write_draft_example :
    read_draft parse_one
      (units "tools:new")
      form_shape
      (write_draft print_one false (units "tools:new") typed_draft none [])
    ≡ some (record { draft = typed_draft; base = none })
read_draft-write_draft_example =
    read_draft-write_draft print_one parse_one (units "tools:new") form_shape typed_draft none []
      refl same_form_shape

abbrev opened : Query Bool
opened = fresh (units "content:tools")

abbrev shown : Query Bool
shown = take_answer (done true) opened

shown-Reachable : Reachable shown
shown-Reachable = after (at_first (units "content:tools")) (came (done true))

shown_state : query_state shown ≡ is_ready true
shown_state = query_state-take_answer opened true

shown_ended : ended_for shown.key shown.attempt shown.outcome ≡ some true
unfolding take_answer text_eq
shown_ended = refl

no_abort : network_error ≢ aborted
no_abort = cc

query_state-reload_example :
    (query_state (reload shown) ≡ is_loading (some true))
    × (query_state (take_answer (failed network_error) (reload shown)) ≡ is_failed (some true))
query_state-reload_example = query_state-reload shown true network_error shown_state no_abort refl

abbrev new_message : Message
new_message = record { id = 7; read_at = none }

abbrev read_message : Message
read_message = record { id = 7; read_at = some (units "2026-01-01T00:00:00Z") }

abbrev inbox : Inbox
inbox = record {
  messages = new_message ∷ [];
  total = 1;
  open_ids = [];
  pending = 7 ∷ [];
  unread = some 1;
  signed_out = false;
}

held : holds_id 7 inbox.pending ≡ true
unfolding holds_id
held = refl
