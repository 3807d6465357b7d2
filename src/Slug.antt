-- ===== src/Slug.antt =====
-- frontend/src/admin/slugify.ts: slug suggestions. `fold` stands for the Unicode steps of the engine,
-- `normalize('NFKD')`, the removal of `\p{M}` and `toLowerCase()`, which come first.
pub mod Shape
pub mod Stable
use anthonyzng_web.Base.{
  ℕ, ◌≡◌, Bool, true, false, ◌&&◌, ◌||◌, List, [], ◌∷◌, reverse, leb, ◌==◌, if◌then◌else◌, length,
  take, all,
}
use anthonyzng_web.Base.Text.{Text, units, is_digit}

abbrev pub dash : ℕ
dash = b'-'

abbrev pub is_lower : ℕ → Bool
is_lower c = leb b'a' c && leb c b'z'

-- `[a-z0-9]`
abbrev pub is_word : ℕ → Bool
is_word c = is_lower c || is_digit c

-- `[a-zA-Z0-9_-]`
abbrev pub is_slug_char : ℕ → Bool
is_slug_char c = is_word c || leb b'A' c && leb c b'Z' || c == b'_' || c == dash

-- `SLUG_PATTERN`
unfoldable pub is_slug : Text → Bool
is_slug [] = false
is_slug (c ∷ s) = is_lower c && all is_slug_char s && leb (length s) 63

abbrev pub reserved_slugs : List Text
reserved_slugs = units "new" ∷ []

-- `.replace(/[^a-z0-9]+/g, '-')`; `run` says that the character before was replaced.
unfoldable pub hyphenate : Bool → Text → Text
hyphenate run [] = []
hyphenate run (c ∷ s) =
    let kept = c ∷ hyphenate false s in
    let rest = hyphenate true s in if is_word c then kept else if run then rest else dash ∷ rest

-- `.replace(/^[^a-z]+/, '')`
unfoldable pub from_letter : Text → Text
from_letter [] = []
from_letter (c ∷ s) = let rest = from_letter s in if is_lower c then c ∷ s else rest

unfoldable pub drop_dashes : Text → Text
drop_dashes [] = []
drop_dashes (c ∷ s) = let rest = drop_dashes s in if c == dash then rest else c ∷ s

-- `.replace(/-+$/, '')`
unfoldable pub strip_end : Text → Text
unfolding drop_dashes
strip_end s = reverse (drop_dashes (reverse s))

unfoldable pub slugify : (Text → Text) → Text → Text
slugify fold text = strip_end (take 64 (from_letter (hyphenate false (fold text))))
