-- ===== src/Collections/Build.antt =====
-- The builders of frontend/src/admin/collections.ts: field configs, both locales, rows and payloads.
use anthonyzng_web.Base.{
  ℕ, zero, suc, Bool, true, false, not, Option, none, some, List, [], ◌∷◌, max,
}
use anthonyzng_web.Base.Text.{Text, units}
use anthonyzng_web.Json.{
  Json, null, str, arr, obj, Items, nil, cons, Members, end, member, find, put, count_items,
}
use anthonyzng_web.Draft.{child, walk, get_string, get_boolean, trim_deep, en_key, zh_key}
use anthonyzng_web.Fields.{
  Locale, en, zh_hant, locale_key, text, url, web, always, FieldBase, TextField,
}

-- An object literal.
abbrev pub object : List (Text × Json) → Members
object [] = end
object ((k, v) ∷ rest) = member k v (object rest)

abbrev pub blank : Json
blank = str []

-- `undefined` where the schema promises a value does not occur; it would read as null here.
abbrev pub or_null : Option Json → Json
or_null none = null
or_null (some v) = v

-- `item.name`
unfoldable pub prop : Json → Text → Json
prop item name = or_null (child item name)

-- `item.translations[locale].name`
unfoldable pub translated : Json → Locale → Text → Json
translated item locale name =
    or_null (walk item (units "translations" ∷ locale_key locale ∷ name ∷ []))

-- `value ?? ''`
abbrev pub or_blank : Json → Json
or_blank null = blank
or_blank v = v

-- `tags.map(cleanTag)`: a term keeps its two locales only.
abbrev pub clean_tag : Json → Json
clean_tag (obj ms) =
    obj (member en_key (or_null (find en_key ms)) (member zh_key (or_null (find zh_key ms)) end))
clean_tag v = v

abbrev pub clean_items : Items → Items
clean_items nil = nil
clean_items (cons x xs) = cons (clean_tag x) (clean_items xs)

abbrev pub clean_tags : Json → Json
clean_tags (arr xs) = arr (clean_items xs)
clean_tags v = v

-- `bothLocales`
abbrev pub both_locales : (Locale → Json) → Json
both_locales make = obj (member en_key (make en) (member zh_key (make zh_hant) end))

abbrev pub plain_base : Text → Option Text → FieldBase
plain_base label hint = record { label = label; hint = hint; visible = none }

-- `text(name, max)`, before its overrides
abbrev pub text_of : Text → ℕ → TextField
text_of name max = record {
  base = plain_base name none;
  control = text;
  name = name;
  localized = false;
  max = max;
  required = always true;
  scheme = none;
}

abbrev pub localized_of : Text → ℕ → TextField
localized_of name max = record (text_of name max) { localized = true }

abbrev pub labelled : Text → TextField → TextField
labelled label f = record f {
  base = record { label = label; hint = f.base.hint; visible = f.base.visible };
}

abbrev pub hinted : Text → TextField → TextField
hinted hint f = record f {
  base = record { label = f.base.label; hint = some hint; visible = f.base.visible };
}

abbrev pub shown_when : (Json → Bool) → TextField → TextField
shown_when test f = record f {
  base = record { label = f.base.label; hint = f.base.hint; visible = some test };
}

-- `{ control: 'url', scheme: 'web', … }`
abbrev pub web_address : Bool → TextField → TextField
web_address needed f = record f { control = url; scheme = some web; required = always needed }

abbrev pub not_placeholder : Json → Bool
not_placeholder draft = not (get_boolean draft (units "placeholder"))

-- `{ ...payload, [key]: value }`
abbrev pub assign : Text → Json → Json → Json
assign key value (obj ms) = obj (put key value ms)
assign key value v = v

abbrev pub null_if_blank : Text → Json
null_if_blank [] = null
null_if_blank (c ∷ s) = str (c ∷ s)

-- The trimmed payload with an optional address sent as null where it is empty.
unfoldable pub with_optional : Text → Json → Json
with_optional key draft =
    assign key (null_if_blank (get_string (trim_deep draft) key)) (trim_deep draft)

-- `list[index] ?? ''` for each index below the count
abbrev pub padded : ℕ → Items → Items
padded zero xs = nil
padded (suc n) nil = cons blank (padded n nil)
padded (suc n) (cons x xs) = cons x (padded n xs)

abbrev pub items_of : Json → Items
items_of (arr xs) = xs
items_of _ = nil

-- `Math.max(en.bullets.length, zh.bullets.length, 1)`
abbrev pub bullet_count : Json → ℕ
bullet_count item =
    max
      (max (count_items (items_of (translated item en (units "bullets"))))
        (count_items (items_of (translated item zh_hant (units "bullets")))))
      1

-- `pairedBullets`, for one locale
unfoldable pub paired_bullets : Json → Locale → Items
paired_bullets item locale =
    padded (bullet_count item) (items_of (translated item locale (units "bullets")))
