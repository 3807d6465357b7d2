-- ===== src/FileChecks.antt =====
-- The checks of a picked file: frontend/src/admin/pages/CvPage.tsx, admin/editor/ProjectImageSection.tsx
-- and the limits of admin/format.ts. `lower` is `toLowerCase`, a parameter.
pub mod Passes
use anthonyzng_web.Base.{
  ℕ, ◌+◌, ◌*◌, Bool, true, false, not, ◌&&◌, ◌||◌, Option, none, some, List, [], ◌∷◌, ltb, leb,
  ◌==◌, map, reverse, if◌then◌else◌,
}
use anthonyzng_web.Base.Text.{Text, units, text_eq, starts_with}
use anthonyzng_web.Base.Dict.{has}

pub record File : Type 0 where
  pub type : Text
  pub name : Text
  pub size : ℕ

pub data FileFlaw : Type 0 where
  wrong_type too_large : FileFlaw

abbrev pub mb : ℕ
mb = 1024 * 1024

abbrev pub image_max_bytes : ℕ
image_max_bytes = 8 * mb

abbrev pub cv_max_bytes : ℕ
cv_max_bytes = 10 * mb

-- `endsWith`
abbrev pub ends_with : Text → Text → Bool
ends_with tail s = starts_with (reverse tail) (reverse s)

abbrev pub is_pdf : (lower : Text → Text) → File → Bool
is_pdf lower f = text_eq f.type (units "application/pdf") || ends_with (units ".pdf") (lower f.name)

abbrev pub image_types : List Text
image_types = units "image/jpeg" ∷ units "image/png" ∷ units "image/webp" ∷ []

-- The case of a letter, as a pattern that ignores it folds it
abbrev pub fold_case : ℕ → ℕ
fold_case c = if leb b'A' c && leb c b'Z' then c + 32 else c

-- `/\.(jpe?g|png|webp)$/i`
abbrev pub has_image_name : Text → Bool
has_image_name name =
    ends_with (units ".jpg") (map fold_case name)
    || ends_with (units ".jpeg") (map fold_case name)
    || ends_with (units ".png") (map fold_case name)
    || ends_with (units ".webp") (map fold_case name)

abbrev pub is_image : File → Bool
is_image f = has f.type image_types || has_image_name f.name

abbrev pub check_against : (fits : Bool) → (limit : ℕ) → File → Option FileFlaw
check_against fits limit f =
    if not fits then some wrong_type else if ltb limit f.size then some too_large else none

-- The `check` of the CV, and that of an image
unfoldable pub check_cv : (lower : Text → Text) → File → Option FileFlaw
check_cv lower f = check_against (is_pdf lower f) cv_max_bytes f

unfoldable pub check_image : File → Option FileFlaw
check_image f = check_against (is_image f) image_max_bytes f
