-- ===== src/Tests/Values.antt =====
-- Runs of JSON comparison, slugs, rows and tokens.
use anthonyzng_web.Draft.Index.{to_index, index_operations}
use anthonyzng_web.Base.{none, ℕ, ◌≡◌, refl, ◌⊎◌, true, some, List, [], ◌∷◌}
use anthonyzng_web.Base.Text.{Text, units, text_eq}
use anthonyzng_web.Json.{
  str, num, obj, Members, member, end, WellFormed, Distinct, find, is_same_json,
}
use anthonyzng_web.Slug.{is_slug, slugify, hyphenate, from_letter, strip_end}
use anthonyzng_web.Slug.Shape.{slugify-is_slug}
use anthonyzng_web.Turnstile.{Turnstile}

abbrev left : Members
left = member (units "a") (num 1) (member (units "b") (str []) end)

abbrev right : Members
right = member (units "b") (str []) (member (units "a") (num 1) end)

left-Distinct : Distinct left
unfolding WellFormed find text_eq
left-Distinct = (refl, tt, (refl, tt, tt))

right-Distinct : Distinct right
unfolding WellFormed find text_eq
right-Distinct = (refl, tt, (refl, tt, tt))

left-WellFormed : WellFormed (obj left)
unfolding WellFormed
left-WellFormed = left-Distinct

right-WellFormed : WellFormed (obj right)
unfolding WellFormed
right-WellFormed = right-Distinct

left-right : is_same_json (obj left) (obj right) ≡ true
unfolding is_same_json find text_eq
left-right = refl

right-left : is_same_json (obj right) (obj left) ≡ true
unfolding is_same_json find text_eq
right-left = refl

find_num : find (units "a") right ≡ some (num 1)
unfolding find text_eq
find_num = refl

find_str : find (units "b") right ≡ some (str [])
unfolding find text_eq
find_str = refl

-- Texts that need no folding.
abbrev as_is : Text → Text
as_is s = s

slugify-is_slug_example :
    (slugify as_is (units "2 new roles!") ≡ [])
    ⊎ (is_slug (slugify as_is (units "2 new roles!")) ≡ true)
slugify-is_slug_example = slugify-is_slug as_is (units "2 new roles!")

slugified : slugify as_is (units "2 new roles!") ≡ units "new-roles"
unfolding slugify hyphenate from_letter strip_end
slugified = refl

abbrev rows : List ℕ
rows = 5 ∷ 6 ∷ 7 ∷ []

abbrev dark : Turnstile
dark = record { issued = some (units "t", units "dark:en"); widget_key = units "dark:en" }

-- Segments that are an index in other spellings, and some that are none.
segments_read :
    (to_index (units "1e0") ≡ some 1)
    × (to_index (units "0x1F") ≡ some 31)
    × (to_index (units " +12 ") ≡ some 12)
    × (to_index (units "-0") ≡ some 0)
    × (to_index (units "20e-1") ≡ some 2)
    × (to_index (units "15e-1") ≡ none)
    × (to_index (units "99999999999999999999e-20") ≡ some 1)
    × (to_index (units "-1") ≡ none)
    × (to_index (units "1x") ≡ none)
    × (to_index (units "tech") ≡ none)
unfolding index_operations
segments_read = (refl, refl, refl, refl, refl, refl, refl, refl, refl, refl)
