-- ===== src/Inbox/Paging.antt =====
-- The paging of frontend/src/admin/pages/MessagesPage.tsx: the part of the inbox that a page asks for,
-- its links, and the way back from a page that is empty.
-- A page is known by its number from 1; its moment is the time it is taken as of.
pub mod Reached
use anthonyzng_web.Base.{
  ℕ, ◌+◌, ◌-◌, ◌*◌, ◌/◌, min, max, Bool, true, false, ◌&&◌, not, Option, none, some, ltb, ◌==◌,
  if◌then◌else◌,
}
use anthonyzng_web.Base.Text.{Text}
use anthonyzng_web.Api.{page_size, MessageView, all_messages, unread_messages}

abbrev pub offset : (page : ℕ) → ℕ
offset page = (page - 1) * page_size

-- `pages`, and the `last` page
unfoldable pub pages_of : (total : ℕ) → ℕ
pages_of total = max 1 ((total + 49) / page_size)

abbrev pub or_else : Option Text → Option Text → Option Text
or_else none b = b
or_else (some a) b = some a

-- The request of a page: its offset and moment. A reload after a deletion passes the moment that the
-- first page was shown at.
unfoldable pub asks_for : (page : ℕ) (as_of reload_as_of : Option Text) → ℕ × Option Text
asks_for page as_of reload_as_of = (offset page, or_else as_of reload_as_of)

-- Where a page that holds `items` messages falls back to.
unfoldable pub falls_back : (page items total : ℕ) → Option ℕ
falls_back page items total =
    if items == 0 && ltb 1 page then some (min (page - 1) (pages_of total)) else none

-- The link to the page before, and the one to the page after
unfoldable pub previous_link : (page total : ℕ) → Option ℕ
previous_link page total = if ltb 1 (pages_of total) && ltb 1 page then some (page - 1) else none

unfoldable pub next_link : (page total : ℕ) → Option ℕ
next_link page total = if ltb page (pages_of total) then some (page + 1) else none

abbrev pub same_view : MessageView → MessageView → Bool
same_view all_messages all_messages = true
same_view unread_messages unread_messages = true
same_view _ _ = false

-- What is announced once a page is ready: the number of a page that another one of its view follows.
unfoldable pub announces :
    (shown : Option (MessageView × ℕ)) → MessageView → (page total : ℕ) → Option (ℕ × ℕ)
announces none view page total = none
announces (some (view', page')) view page total =
    if same_view view' view && not (page' == page) then some (page, pages_of total) else none
