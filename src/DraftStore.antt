-- ===== src/DraftStore.antt =====
-- frontend/src/admin/draftStore.ts: unsaved drafts, kept in the tab's session storage.
-- The storage is a record of texts. Parameters: `print` is `JSON.stringify` and `parse` is `JSON.parse`,
-- `none` where it throws; `full` says that the storage refuses a write.
pub mod Roundtrip
use anthonyzng_web.Base.{
  ℕ, Bool, true, false, ◌&&◌, Option, none, some, List, [], ◌∷◌, ◌++◌, ◌==◌, if◌then◌else◌,
}
use anthonyzng_web.Base.Text.{Text, units, text_eq, text_lt}
use anthonyzng_web.Base.Dict.{lookup, insert}
use anthonyzng_web.Json.{Json, null, num, str, obj, Members, member, end, find}
use anthonyzng_web.Collections.Shape.{member_keys}

abbrev pub Storage : Type 0
Storage = List (Text × Text)

pub record KeptDraft : Type 0 where
  pub draft : Members
  pub base : Option Text

-- `FORMAT`, the bits of the double 1
abbrev pub format : ℕ
format = 4607182418800017408

abbrev pub storage_key : Text → Text
storage_key id = units "admin:draft:" ++ id

unfoldable pub insert_text : Text → List Text → List Text
insert_text s [] = s ∷ []
insert_text s (t ∷ ts) = let rest = insert_text s ts in if text_lt t s then t ∷ rest else s ∷ t ∷ ts

-- `keys.sort()`
unfoldable pub sort_texts : List Text → List Text
unfolding insert_text
sort_texts [] = []
sort_texts (s ∷ ss) = insert_text s (sort_texts ss)

-- `list.join()`
unfoldable pub join_comma : List Text → Text
join_comma [] = []
join_comma (s ∷ []) = s
join_comma (s ∷ t ∷ ts) = s ++ b',' ∷ join_comma (t ∷ ts)

unfoldable pub same_keys : Members → Members → Bool
same_keys a b =
    text_eq (join_comma (sort_texts (member_keys a))) (join_comma (sort_texts (member_keys b)))

abbrev pub base_json : Option Text → Json
base_json none = null
base_json (some s) = str s

abbrev pub base_in : Option Json → Option Text
base_in (some (str s)) = some s
base_in _ = none

-- `{ v: FORMAT, base, draft }`
abbrev pub kept_json : Members → Option Text → Json
kept_json draft base = obj (
    member (units "v") (num format)
      (member (units "base") (base_json base) (member (units "draft") (obj draft) end)))

abbrev pub is_format : Option Json → Bool
is_format (some (num n)) = n == format
is_format _ = false

abbrev pub kept_if : Bool → Members → Option Text → Option KeptDraft
kept_if true draft base = some (record { draft = draft; base = base })
kept_if false draft base = none

-- The draft in a stored value of this format and of the shape of `like`.
abbrev pub kept_draft : Members → Bool → Option Json → Option Text → Option KeptDraft
kept_draft like valid (some (obj draft)) base = kept_if (valid && same_keys draft like) draft base
kept_draft like valid _ base = none

abbrev pub kept_value : Members → Option Json → Option KeptDraft
kept_value like (some (obj ms)) =
    kept_draft like (is_format (find (units "v") ms)) (find (units "draft") ms)
      (base_in (find (units "base") ms))
kept_value like _ = none

abbrev pub kept_text : (Text → Option Json) → Members → Option Text → Option KeptDraft
kept_text parse like none = none
kept_text parse like (some raw) = kept_value like (parse raw)

unfoldable pub read_draft : (Text → Option Json) → Text → Members → Storage → Option KeptDraft
read_draft parse id like storage = kept_text parse like (lookup (storage_key id) storage)

unfoldable pub write_draft :
    (Json → Text) → (full : Bool) → Text → Members → Option Text → Storage → Storage
write_draft print true id draft base storage = storage
write_draft print false id draft base storage =
    insert (storage_key id) (print (kept_json draft base)) storage

-- `sessionStorage.removeItem(key)`
unfoldable pub remove_item : Text → Storage → Storage
remove_item key [] = []
remove_item key ((k, v) ∷ d) =
    let rest = remove_item key d in if text_eq k key then rest else (k, v) ∷ rest

unfoldable pub clear_draft : Text → Storage → Storage
clear_draft id storage = remove_item (storage_key id) storage
