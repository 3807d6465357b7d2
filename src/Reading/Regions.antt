-- ===== src/Reading/Regions.antt =====
-- frontend/src/sections/sectionIds.ts: the regions of the home page and the numbers of its sections.
pub mod Numbers
use anthonyzng_web.Base.{
  ℕ, zero, suc, ◌+◌, Option, none, some, List, [], ◌∷◌, Bool, ltb, length, if◌then◌else◌,
}
use anthonyzng_web.Base.Text.{Text, units, show_nat}
use anthonyzng_web.Base.Dict.{has}
use anthonyzng_web.Theme.{ThemeName, light, dark}

abbrev pub section_ids : List Text
section_ids =
    units "experience" ∷ units "projects" ∷ units "skills" ∷ units "tools" ∷ units "contact" ∷ []

abbrev pub numbered_section_ids : List Text
numbered_section_ids = units "experience" ∷ units "projects" ∷ units "skills" ∷ units "tools" ∷ []

-- `STATEMENT_ID` first, `ARCHIVE_ID` last
abbrev pub landing_ids : List Text
landing_ids =
    units "statement"
    ∷ units "experience"
    ∷ units "projects"
    ∷ units "skills"
    ∷ units "tools"
    ∷ units "contact"
    ∷ units "archive"
    ∷ []

unfoldable pub is_landing_id : Text → Bool
is_landing_id value = has value landing_ids

-- `padStart(2, '0')`
abbrev pub pad_two : Text → Text
pad_two [] = units "00"
pad_two (c ∷ []) = b'0' ∷ c ∷ []
pad_two (c ∷ d ∷ s) = c ∷ d ∷ s

unfoldable pub format_index : ℕ → Text
format_index index = pad_two (show_nat (index + 1))

-- The characters of the formal Chinese numerals
abbrev pub han_numerals : List Text
han_numerals =
    (0x58f9 ∷ [])
    ∷ (0x8cb3 ∷ [])
    ∷ (0x53c3 ∷ [])
    ∷ (0x8086 ∷ [])
    ∷ (0x4f0d ∷ [])
    ∷ (0x9678 ∷ [])
    ∷ (0x67d2 ∷ [])
    ∷ (0x634c ∷ [])
    ∷ (0x7396 ∷ [])
    ∷ (0x62fe ∷ [])
    ∷ []

abbrev pub roman_numerals : List Text
roman_numerals =
    units "I"
    ∷ units "II"
    ∷ units "III"
    ∷ units "IV"
    ∷ units "V"
    ∷ units "VI"
    ∷ units "VII"
    ∷ units "VIII"
    ∷ units "IX"
    ∷ units "X"
    ∷ []

abbrev pub numerals_of : ThemeName → List Text
numerals_of light = han_numerals
numerals_of dark = roman_numerals

abbrev pub numeral_at : List Text → ℕ → Text → Text
numeral_at [] index other = other
numeral_at (n ∷ ns) zero other = n
numeral_at (n ∷ ns) (suc index) other = numeral_at ns index other

unfoldable pub format_ghost_numeral : ℕ → ThemeName → Text
format_ghost_numeral index theme = numeral_at (numerals_of theme) index (show_nat (index + 1))
