-- ===== src/LanguageSwitch/Back.antt =====
-- A switch of language and back leads to the page that it came from.
use anthonyzng_web.Base.{
  ◌≡◌, refl, ap, ◌∙◌, true, none, some, [], ◌∷◌, ◌++◌, map, ◌==◌, ==_iff, if◌then◌else◌,
}
use anthonyzng_web.Base.Text.{Text}
use anthonyzng_web.Codes.{LanguageCode, en_code, zh_hant_code, slug_from_language}
use anthonyzng_web.FileChecks.{fold_case}
use anthonyzng_web.LanguageSwitch.{slash, behind_slug, is_boundary, or_path, rest_of, switch_path}

behind_slug-append :
    (slug typed rest : Text)
    → map fold_case typed ≡ slug
    → behind_slug slug (typed ++ rest) ≡ some rest
unfolding behind_slug
behind_slug-append [] [] rest h = refl
behind_slug-append [] (c ∷ typed) rest h = absurd (cc)
behind_slug-append (a ∷ slug) [] rest h = absurd (cc)
behind_slug-append (a ∷ slug) (c ∷ typed) rest h =
    let first : fold_case c ≡ a = cc in
    let others : map fold_case typed ≡ slug = cc in
    let same : (fold_case c == a) ≡ true = (==_iff (fold_case c) a).1 first in
    ap (λ b. if b then behind_slug slug (typed ++ rest) else none) same
    ∙ behind_slug-append slug typed rest others

-- The path of a page whose language is spelled in any case
rest_of-path :
    (current : LanguageCode) (typed rest : Text)
    → map fold_case typed ≡ slug_from_language current
    → is_boundary rest ≡ true
    → rest_of current (slash ∷ typed ++ rest) ≡ rest
unfolding rest_of
rest_of-path current typed rest spelled ends =
    ap (λ o. or_path (slash ∷ typed ++ rest) o)
      (behind_slug-append (slug_from_language current) typed rest spelled)
    ∙ ap (λ b. if b then rest else slash ∷ typed ++ rest) ends

slug-folded :
    (code : LanguageCode) → map fold_case (slug_from_language code) ≡ slug_from_language code
slug-folded en_code = refl
slug-folded zh_hant_code = refl

-- A switch from a page whose language is spelled in any case leads to the same page under the other
-- language, and a switch back leads to the page itself, its language as it is spelled by the site.
pub switch_path-back :
    (current other : LanguageCode) (typed rest : Text)
    → map fold_case typed ≡ slug_from_language current
    → is_boundary rest ≡ true
    → let there = switch_path other current (slash ∷ typed ++ rest) in
      (there ≡ slash ∷ slug_from_language other ++ rest)
      × (switch_path current other there ≡ slash ∷ slug_from_language current ++ rest)
unfolding switch_path
switch_path-back current other typed rest spelled ends =
    let first : rest_of current (slash ∷ typed ++ rest) ≡ rest =
      rest_of-path current typed rest spelled ends in
    let there : slash ∷ slug_from_language other ++ rest_of current (slash ∷ typed ++ rest)
        ≡ slash ∷ slug_from_language other ++ rest =
      ap (λ (x : Text). slash ∷ slug_from_language other ++ x) first in
    (
      there,
      ap (λ (x : Text). slash ∷ slug_from_language current ++ rest_of other x) there
          ∙ ap (λ (x : Text). slash ∷ slug_from_language current ++ x)
              (rest_of-path other (slug_from_language other) rest (slug-folded other) ends),
    )
