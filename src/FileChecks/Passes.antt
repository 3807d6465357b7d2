-- ===== src/FileChecks/Passes.antt =====
-- Which files pass their check.
use anthonyzng_web.Base.{ℕ, ◌≤◌, ◌≡◌, ◌↔◌, Bool, true, none, arith}
use anthonyzng_web.Base.Text.{Text}
use anthonyzng_web.FileChecks.{
  File, check_against, check_cv, check_image, is_pdf, is_image, cv_max_bytes, image_max_bytes,
}

check_against-none :
    (fits : Bool) (limit : ℕ) (f : File)
    → (check_against fits limit f ≡ none) ↔ ((fits ≡ true) × (f.size ≤ limit))
check_against-none fits limit f = ground arith

-- A file passes as a CV exactly where its type or its name says that it is a PDF and it has at most 10 MB.
pub check_cv-none :
    (lower : Text → Text) (f : File)
    → (check_cv lower f ≡ none) ↔ ((is_pdf lower f ≡ true) × (f.size ≤ cv_max_bytes))
unfolding check_cv
check_cv-none lower f = check_against-none (is_pdf lower f) cv_max_bytes f

-- A file passes as an image exactly where its type or its name is one of the accepted ones and it has at
-- most 8 MB.
pub check_image-none :
    (f : File) → (check_image f ≡ none) ↔ ((is_image f ≡ true) × (f.size ≤ image_max_bytes))
unfolding check_image
check_image-none f = check_against-none (is_image f) image_max_bytes f
