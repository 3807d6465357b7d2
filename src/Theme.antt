-- ===== src/Theme.antt =====
-- frontend/src/theme/theme.ts and useTheme.ts: the theme of the page, the choice in localStorage and the
-- theme of the system. The storage may refuse to be read or to be written.
pub mod Kept
use anthonyzng_web.Base.{Bool, true, false, Option, none, some, if◌then◌else◌}
use anthonyzng_web.Base.Text.{Text, units, text_eq}

pub data ThemeName : Type 0 where
  light dark : ThemeName

pub record Storage : Type 0 where
  pub value : Option Text
  pub is_readable : Bool
  pub is_writable : Bool

pub record Themed : Type 0 where
  pub theme : ThemeName
  pub storage : Storage
  pub system : ThemeName

abbrev pub theme_text : ThemeName → Text
theme_text light = units "light"
theme_text dark = units "dark"

abbrev pub read_theme : Option Text → Option ThemeName
read_theme none = none
read_theme (some value) =
    if text_eq (units "light") value
    then some light
    else if text_eq (units "dark") value
    then some dark
    else none

-- `getStoredTheme`
unfoldable pub stored_theme : Storage → Option ThemeName
stored_theme s = if s.is_readable then read_theme s.value else none

-- `storeTheme`
unfoldable pub store_theme : ThemeName → Storage → Storage
store_theme t s = if s.is_writable then record s { value = some (theme_text t) } else s

abbrev pub chosen_or : ThemeName → Option ThemeName → ThemeName
chosen_or system none = system
chosen_or system (some t) = t

-- A page is opened.
unfoldable pub open_themed : Storage → (system : ThemeName) → Themed
open_themed storage system = record {
  theme = chosen_or system (stored_theme storage);
  storage = storage;
  system = system;
}

abbrev pub other_theme : ThemeName → ThemeName
other_theme dark = light
other_theme light = dark

unfoldable pub toggle_theme : Themed → Themed
toggle_theme p = record p {
  theme = other_theme p.theme;
  storage = store_theme (other_theme p.theme) p.storage;
}

abbrev pub unless_chosen : ThemeName → ThemeName → Option ThemeName → ThemeName
unless_chosen present system none = system
unless_chosen present system (some _) = present

-- The listener of the system's theme
unfoldable pub system_turns : ThemeName → Themed → Themed
system_turns system p = record p {
  theme = unless_chosen p.theme system (stored_theme p.storage);
  system = system;
}
