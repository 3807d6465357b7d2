-- ===== src/Paths.antt =====
-- frontend/src/admin/paths.ts: the addresses of the admin panel, and the inbox's view and page as read
-- from its address. Parameters: `encode` is `encodeURIComponent`, `query` is `URLSearchParams` as text,
-- and `get` is the `get` of the parsed one.
pub mod Messages
use anthonyzng_web.Base.{
  ℕ, zero, suc, Bool, true, false, ◌&&◌, ◌||◌, Option, none, some, List, [], ◌∷◌, ◌++◌, ltb, leb,
  ◌==◌, if◌then◌else◌, length, all,
}
use anthonyzng_web.Base.Text.{Text, units, text_eq, show_nat, is_digit, digits_value, dot}
use anthonyzng_web.Collections.Types.{CollectionId, id_text}
use anthonyzng_web.Api.{MessageView, all_messages, unread_messages}

abbrev pub collection_address : CollectionId → Text
collection_address id = units "/admin/content/" ++ id_text id

abbrev pub create_address : CollectionId → Text
create_address id = collection_address id ++ units "/new"

abbrev pub edit_address : (encode : Text → Text) → CollectionId → Text → Text
edit_address encode id slug = collection_address id ++ units "/" ++ encode slug

abbrev pub status_params : MessageView → List (Text × Text)
status_params all_messages = []
status_params unread_messages = (units "status", units "unread") ∷ []

abbrev pub moment_params : Option Text → List (Text × Text)
moment_params none = []
moment_params (some moment) = (units "asOf", moment) ∷ []

abbrev pub page_params : ℕ → Option Text → List (Text × Text)
page_params page as_of =
    if ltb 1 page then (units "page", show_nat page) ∷ moment_params as_of else []

unfoldable pub messages_params : MessageView → ℕ → Option Text → List (Text × Text)
messages_params view page as_of = status_params view ++ page_params page as_of

abbrev pub with_query : Text → Text
with_query [] = units "/admin/messages"
with_query (c ∷ q) = units "/admin/messages?" ++ c ∷ q

-- `adminPaths.messages`
unfoldable pub messages_address : (List (Text × Text) → Text) → MessageView → ℕ → Option Text → Text
messages_address query view page as_of = with_query (query (messages_params view page as_of))

-- `PAGE`
unfoldable pub is_page : Text → Bool
is_page [] = false
is_page (c ∷ s) = leb b'1' c && leb c b'9' && all is_digit s && leb (length s) 6

-- What is left behind a template, in which `d` stands for a digit.
unfoldable pub behind : (template s : Text) → Option Text
behind [] s = some s
behind (_ ∷ _) [] = none
behind (a ∷ p) (c ∷ s) =
    let rest = behind p s in
    if a == b'd' then (if is_digit c then rest else none) else if a == c then rest else none

abbrev pub is_end : Option Text → Bool
is_end (some []) = true
is_end _ = false

-- `Z|[+-]\d{2}:\d{2}` to the end
unfoldable pub is_zone : Text → Bool
unfolding behind
is_zone [] = false
is_zone (c ∷ s) =
    if c == b'Z'
    then is_end (some s)
    else if c == b'+' || c == b'-'
    then is_end (behind (units "dd:dd") s)
    else false

-- `\d*`, then the zone
unfoldable pub is_fraction : Text → Bool
is_fraction [] = false
is_fraction (c ∷ s) = let rest = is_fraction s in if is_digit c then rest else is_zone (c ∷ s)

-- `(\.\d+)?`, then the zone
unfoldable pub is_tail : Text → Bool
is_tail [] = false
is_tail (c ∷ []) = is_zone (c ∷ [])
is_tail (c ∷ d ∷ s) = if c == dot then is_digit d && is_fraction s else is_zone (c ∷ d ∷ s)

abbrev pub tail_ok : Option Text → Bool
tail_ok none = false
tail_ok (some rest) = is_tail rest

-- `INSTANT`
unfoldable pub is_instant : Text → Bool
unfolding behind
is_instant s = tail_ok (behind (units "dddd-dd-ddTdd:dd:dd") s)

pub record MessagesSearch : Type 0 where
  pub view : MessageView
  pub page : ℕ
  pub as_of : Option Text

abbrev pub or_blank_text : Option Text → Text
or_blank_text none = []
or_blank_text (some s) = s

abbrev pub view_of : Option Text → MessageView
view_of none = all_messages
view_of (some s) = if text_eq s (units "unread") then unread_messages else all_messages

unfoldable pub page_of : Text → ℕ
page_of raw = if is_page raw then digits_value 0 raw else 1

abbrev pub instant_of : Option Text → Option Text
instant_of none = none
instant_of (some s) = if is_instant s then some s else none

abbrev pub as_of_on : ℕ → Option Text → Option Text
as_of_on page raw = if ltb 1 page then instant_of raw else none

-- `readMessagesSearch`
unfoldable pub read_messages_search : (get : Text → Option Text) → MessagesSearch
read_messages_search get =
    let page = page_of (or_blank_text (get (units "page"))) in
    record {
      view = view_of (get (units "status"));
      page = page;
      as_of = as_of_on page (get (units "asOf"));
    }
