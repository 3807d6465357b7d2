-- ===== src/LanguageSwitch.antt =====
-- frontend/src/components/LanguageSwitcher.tsx: the address of the same page in another language.
pub mod Back
use anthonyzng_web.Base.{
  ℕ, Bool, true, false, Option, none, some, List, [], ◌∷◌, ◌++◌, ◌==◌, if◌then◌else◌,
}
use anthonyzng_web.Base.Text.{Text}
use anthonyzng_web.Codes.{LanguageCode, slug_from_language}
use anthonyzng_web.FileChecks.{fold_case}

abbrev pub slash : ℕ
slash = b'/'

-- What is left behind a prefix, the case of the letters ignored
unfoldable pub behind_slug : (slug s : Text) → Option Text
behind_slug [] s = some s
behind_slug (_ ∷ _) [] = none
behind_slug (a ∷ slug) (c ∷ s) =
    let rest = behind_slug slug s in if fold_case c == a then rest else none

-- `(?=/|$)`
abbrev pub is_boundary : Text → Bool
is_boundary [] = true
is_boundary (c ∷ _) = c == slash

abbrev pub or_path : Text → Option Text → Text
or_path pathname none = pathname
or_path pathname (some rest) = if is_boundary rest then rest else pathname

-- `rest`: the path without its language
unfoldable pub rest_of : LanguageCode → Text → Text
rest_of current [] = []
rest_of current (c ∷ s) =
    if c == slash then or_path (c ∷ s) (behind_slug (slug_from_language current) s) else c ∷ s

-- `hash`
abbrev pub region_hash : Option Text → Text
region_hash none = []
region_hash (some region) = b'#' ∷ region

unfoldable pub switch_hash : (on_home : Bool) → (active : Option Text) → (hash : Text) → Text
switch_hash true active hash = region_hash active
switch_hash false active hash = hash

-- The path of `to`, and the whole of it
unfoldable pub switch_path : (to current : LanguageCode) → Text → Text
switch_path to current pathname = slash ∷ slug_from_language to ++ rest_of current pathname

unfoldable pub switch_to : (to current : LanguageCode) → (pathname search hash : Text) → Text
switch_to to current pathname search hash = switch_path to current pathname ++ search ++ hash
