-- ===== src/Draft.antt =====
-- frontend/src/admin/draft.ts: the editor's form state and its dotted paths.
-- `undefined` is `none`. JavaScript never fails to write: where the value that it makes is no JSON value any more
-- (an array with a gap, or with a property that is no index), the write here is `none`, and what follows such a
-- write is not modelled.
pub mod Index
pub mod Access
pub mod Writable
pub mod Trimmed
pub mod Rows
use anthonyzng_web.Base.{
  ℕ, zero, suc, Bool, true, false, Option, none, some, List, [], ◌∷◌, map, if◌then◌else◌, all,
  get_elem?, set, String,
}
use anthonyzng_web.Base.Text.{Text, units, trim, split_dot, is_digit, digits_value, points_from}
unfoldable pub use anthonyzng_web.Draft.Index.{to_index}
use anthonyzng_web.Draft.Index.{index_operations}
use anthonyzng_web.Json.{
  Json, null, boolean, num, str, arr, obj, Items, nil, cons, Members, end, member, item_at, find,
  put, is_same_json,
}

-- One step of the loop of `getAt`.
unfoldable pub child : Json → Text → Option Json
child (arr xs) w = elim (to_index w) [ none ↦ none | some i ↦ item_at xs i ]
child (obj ms) w = find w ms
child _ w = none

-- The loop of `getAt`, over the segments.
unfoldable pub walk : Json → List Text → Option Json
walk v [] = some v
walk v (w ∷ ws) = elim (child v w) [ none ↦ none | some u ↦ walk u ws ]

unfoldable pub get_at : Json → Text → Option Json
get_at root path = walk root (split_dot path)

-- `copy[i] = value`, where the copy stays a JSON value: behind its end and one more there is a gap
unfoldable pub set_item : Items → ℕ → Json → Option Items
set_item nil zero v = some (cons v nil)
set_item nil (suc _) v = none
set_item (cons _ xs) zero v = some (cons v xs)
set_item (cons x xs) (suc i) v = elim (set_item xs i v) [ none ↦ none | some ys ↦ some (cons x ys) ]

-- `value[head]` of what may be undefined or no container
unfoldable pub child_of : Option Json → Text → Option Json
child_of none w = none
child_of (some v) w = child v w

-- The copy that `setIn` makes of one level, with `u` stored under the segment.
unfoldable pub store : Option Json → Text → Json → Option Json
store (some (arr xs)) w u = elim (to_index w) [
  | none ↦ none
  | some i ↦ elim (set_item xs i u) [ none ↦ none | some ys ↦ some (arr ys) ]
]
store (some (obj ms)) w u = some (obj (put w u ms))
store _ w u = some (obj (put w u end))

unfoldable pub set_in : Option Json → List Text → Json → Option Json
set_in v [] next = some next
set_in v (w ∷ ws) next = elim (set_in (child_of v w) ws next) [ none ↦ none | some u ↦ store v w u ]

unfoldable pub set_at : Json → Text → Json → Option Json
set_at draft path next = set_in (some draft) (split_dot path) next

abbrev pub as_string : Option Json → Text
as_string (some (str s)) = s
as_string _ = []

unfoldable pub get_string : Json → Text → Text
get_string draft path = as_string (get_at draft path)

abbrev pub is_true : Option Json → Bool
is_true (some (boolean true)) = true
is_true _ = false

unfoldable pub get_boolean : Json → Text → Bool
get_boolean draft path = is_true (get_at draft path)

-- `value.map((item) => (typeof item === 'string' ? item : ''))`
abbrev pub strings_of : Items → List Text
strings_of nil = []
strings_of (cons x xs) = as_string (some x) ∷ strings_of xs

abbrev pub strings_in : Option Json → List Text
strings_in (some (arr xs)) = strings_of xs
strings_in _ = []

unfoldable pub get_strings : Json → Text → List Text
get_strings draft path = strings_in (get_at draft path)

-- `Tag` of frontend/src/admin/schemas.ts: a proper noun, or a term with its two locales.
pub data Tag : Type 0 where
  noun : Text → Tag
  term : (en zh : Text) → Tag

abbrev pub is_term_tag : Tag → Bool
is_term_tag (noun _) = false
is_term_tag (term _ _) = true

abbrev pub en_key : Text
en_key = units "en"

abbrev pub zh_key : Text
zh_key = units "zh-Hant"

abbrev pub tag_of : Json → Tag
tag_of (str s) = noun s
tag_of (obj ms) = term (as_string (find en_key ms)) (as_string (find zh_key ms))
tag_of _ = noun []

abbrev pub tags_of : Items → List Tag
tags_of nil = []
tags_of (cons x xs) = tag_of x ∷ tags_of xs

abbrev pub tags_in : Option Json → List Tag
tags_in (some (arr xs)) = tags_of xs
tags_in _ = []

unfoldable pub get_tags : Json → Text → List Tag
get_tags draft path = tags_in (get_at draft path)

-- The JSON value of a chip: exactly the keys of the write shape, as `cleanTag` leaves them.
abbrev pub tag_json : Tag → Json
tag_json (noun s) = str s
tag_json (term en zh) = obj (member en_key (str en) (member zh_key (str zh) end))

abbrev pub tags_json : List Tag → Items
tags_json [] = nil
tags_json (t ∷ ts) = cons (tag_json t) (tags_json ts)

abbrev pub strings_json : List Text → Items
strings_json [] = nil
strings_json (s ∷ ss) = cons (str s) (strings_json ss)

unfoldable mutual
  pub trim_deep : Json → Json
  trim_deep (str s) = str (trim s)
  trim_deep (arr xs) = arr (trim_items xs)
  trim_deep (obj ms) = obj (trim_members ms)
  trim_deep null = null
  trim_deep (boolean b) = boolean b
  trim_deep (num n) = num n

  pub trim_items : Items → Items
  trim_items nil = nil
  trim_items (cons x xs) = cons (trim_deep x) (trim_items xs)

  pub trim_members : Members → Members
  trim_members end = end
  trim_members (member k v ms) = member k (trim_deep v) (trim_members ms)

-- `swapped`: both entries are read from the old list. Each caller checks the two indices first; an
-- index out of range changes nothing here.
unfoldable pub swapped {ℓ} : {T : Type ℓ} → List T → ℕ → ℕ → List T
swapped xs a b = elim (get_elem? xs a) [
  | none ↦ xs
  | some x ↦ elim (get_elem? xs b) [ none ↦ xs | some y ↦ set (set xs a y) b x ]
]

unfoldable pub same_draft : Json → Json → Bool
same_draft a b = is_same_json a b

-- The length that the backend measures, in code points.
unfoldable pub text_length : Text → ℕ
text_length s = points_from false s

-- Whoever unfolds this computes with every operation above.
unfoldable pub draft_operations : Unit {0}
unfolding index_operations child walk get_at set_item child_of store set_in set_at get_string
    get_boolean get_strings get_tags trim_deep swapped same_draft text_length item_at find put
    is_same_json trim split_dot points_from digits_value
draft_operations = tt
