-- ===== src/Theme/Kept.antt =====
-- The theme follows the system until the user picks one; then the choice stays.
use anthonyzng_web.Base.{
  ◌≡◌, refl, sym, ap, ◌∙◌, Bool, true, false, Option, none, some, List, [], ◌∷◌, if◌then◌else◌,
  if_both,
}
use anthonyzng_web.Base.Text.{text_eq}
use anthonyzng_web.Theme.{
  ThemeName, light, dark, Storage, Themed, stored_theme, store_theme, read_theme, theme_text,
  chosen_or, open_themed, other_theme, toggle_theme, unless_chosen, system_turns,
}

-- The storage can be read and written.
abbrev pub Works : Storage → Type 0
Works s = (s.is_readable ≡ true) × (s.is_writable ≡ true)

pub data ThemeReached (storage : Storage) : Themed → Type 0 where
  was_opened : (system : ThemeName) → ThemeReached storage (open_themed storage system)
  was_toggled : {p : Themed} → ThemeReached storage p → ThemeReached storage (toggle_theme p)
  has_turned :
      {p : Themed} (system : ThemeName)
      → ThemeReached storage p
      → ThemeReached storage (system_turns system p)

read_theme-theme_text : (t : ThemeName) → read_theme (some (theme_text t)) ≡ some t
unfolding text_eq
read_theme-theme_text light = refl
read_theme-theme_text dark = refl

store_theme-Works : (t : ThemeName) (s : Storage) → Works s → Works (store_theme t s)
unfolding store_theme
store_theme-Works t s (r, k) = if_both Works s.is_writable (r, k) (r, k)

stored_theme-store_theme :
    (t : ThemeName) (s : Storage) → Works s → stored_theme (store_theme t s) ≡ some t
unfolding stored_theme store_theme
stored_theme-store_theme t s (r, k) = rw k (rw r (read_theme-theme_text t))

abbrev Settled : Themed → Type 0
Settled p = Works p.storage × (p.theme ≡ chosen_or p.system (stored_theme p.storage))

turned-theme :
    (present old system : ThemeName) (o : Option ThemeName)
    → present ≡ chosen_or old o
    → unless_chosen present system o ≡ chosen_or system o
turned-theme present old system none h = refl
turned-theme present old system (some t) h = h

reached-Settled :
    {storage : Storage} {p : Themed} → Works storage → ThemeReached storage p → Settled p
unfolding open_themed toggle_theme system_turns
reached-Settled w (was_opened system) = (w, refl)
reached-Settled w (was_toggled {p} r) =
    let (works, _) = reached-Settled w r in
    (
      store_theme-Works (other_theme p.theme) p.storage works,
      sym (
          ap (chosen_or p.system) (stored_theme-store_theme (other_theme p.theme) p.storage works)),
    )
reached-Settled w (has_turned {p} system r) =
    let (works, same) = reached-Settled w r in
    (works, turned-theme p.theme p.system system (stored_theme p.storage) same)

-- With a storage that works, the theme is always the one that is stored, or else the system's.
pub theme-stored :
    (storage : Storage) (p : Themed)
    → Works storage
    → ThemeReached storage p
    → p.theme ≡ chosen_or p.system (stored_theme p.storage)
theme-stored storage p w r = (reached-Settled w r).1

unfoldable pub turns_all : List ThemeName → Themed → Themed
turns_all [] p = p
turns_all (system ∷ more) p = turns_all more (system_turns system p)

turns_all-chosen :
    (more : List ThemeName) (p : Themed) {t : ThemeName}
    → stored_theme p.storage ≡ some t
    → (turns_all more p).theme ≡ p.theme × ((turns_all more p).storage ≡ p.storage)
unfolding turns_all system_turns
turns_all-chosen [] p h = (refl, refl)
turns_all-chosen (system ∷ more) p h =
    let (theme, storage) = turns_all-chosen more (system_turns system p) h in
    (theme ∙ ap (unless_chosen p.theme system) h, storage)

-- With a storage that works, a choice stays through any turns of the system's theme, and a page that is
-- opened after them shows it again.
pub toggle_theme-stays :
    (p : Themed) (more : List ThemeName) (system : ThemeName)
    → Works p.storage
    → let q = turns_all more (toggle_theme p) in
      (q.theme ≡ other_theme p.theme) × ((open_themed q.storage system).theme ≡ other_theme p.theme)
unfolding toggle_theme open_themed
toggle_theme-stays p more system w =
    let kept = stored_theme-store_theme (other_theme p.theme) p.storage w in
    let (theme, storage) = turns_all-chosen more (toggle_theme p) kept in
    (theme, ap (λ s. chosen_or system (stored_theme s)) storage ∙ ap (chosen_or system) kept)

-- With a storage that cannot be read, a turn of the system's theme overrides the choice.
pub toggle_theme-lost :
    (p : Themed) (system : ThemeName)
    → p.storage.is_readable ≡ false
    → (system_turns system (toggle_theme p)).theme ≡ system
unfolding toggle_theme system_turns store_theme stored_theme
toggle_theme-lost p system h = by_write p.storage.is_writable
  where
    by_write :
        (b : Bool)
        → unless_chosen (other_theme p.theme) system (
            stored_theme (
              if b
              then record p.storage { value = some (theme_text (other_theme p.theme)) }
              else p.storage))
          ≡ system
    by_write true = rw h refl
    by_write false = rw h refl
