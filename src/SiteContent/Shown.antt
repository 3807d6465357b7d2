-- ===== src/SiteContent/Shown.antt =====
-- The content on screen is always in the active language, and is the static one or a payload that differs
-- from it.
use anthonyzng_web.Base.{
  ◌≡◌, ◌⊎◌, refl, sym, ap, ◌∙◌, inl, inr, Bool, true, false, not, Option, none, some, if◌then◌else◌,
  if_both,
}
use anthonyzng_web.Json.{is_same_json}
use anthonyzng_web.Codes.{LanguageCode, en_code, zh_hant_code}
use anthonyzng_web.Client.{Result, done, failed, Failure}
use anthonyzng_web.SiteContent.{
  Content, Page, first_page, choose_language, take_content, take_payload, take_result,
  shown_content, shown_or, same_language,
}

pub data PageReached (fallback : LanguageCode → Content) : Page → Type 0 where
  first_shown : (language : LanguageCode) → PageReached fallback (first_page language)
  chosen :
      {p : Page} (language : LanguageCode)
      → PageReached fallback p
      → PageReached fallback (choose_language language p)
  was_answered :
      {p : Page} (r : Result Content)
      → PageReached fallback p
      → PageReached fallback (take_content fallback r p)

same_language-eq : (a b : LanguageCode) → same_language a b ≡ true → a ≡ b
same_language-eq en_code en_code h = refl
same_language-eq en_code zh_hant_code h = absurd (cc)
same_language-eq zh_hant_code en_code h = absurd (cc)
same_language-eq zh_hant_code zh_hant_code h = refl

-- A payload that was taken differs from the static content of its own language.
abbrev Differs : (LanguageCode → Content) → Option Content → Type 0
Differs fallback remote =
    (payload : Content)
    → remote ≡ some payload
    → is_same_json payload.value (fallback payload.locale).value ≡ false

take_payload-Differs :
    (fallback : LanguageCode → Content) (payload : Content) (p : Page)
    → Differs fallback p.remote
    → Differs fallback (take_payload fallback payload p).remote
take_payload-Differs fallback payload p h =
    by_tests (same_language payload.locale p.active)
      (is_same_json payload.value (fallback p.active).value) refl refl
  where
    by_tests :
        (own repeats : Bool)
        → same_language payload.locale p.active ≡ own
        → is_same_json payload.value (fallback p.active).value ≡ repeats
        → Differs fallback
            (if not own
              then p
              else if repeats
              then p
              else record p { remote = some payload }).remote
    by_tests false repeats o s q e = h q e
    by_tests true true o s q e = h q e
    by_tests true false o s q e =
        let same : some payload ≡ some q = e in
        let same_payload : payload ≡ q = cc in
        let active : payload.locale ≡ p.active = same_language-eq payload.locale p.active o in
        rw (← same_payload, active) s

take_result-Differs :
    (fallback : LanguageCode → Content) (r : Result Content) (p : Page)
    → Differs fallback p.remote
    → Differs fallback (take_result fallback r p).remote
take_result-Differs fallback (done payload) p h = take_payload-Differs fallback payload p h
take_result-Differs fallback (failed e) p h = h

abbrev FitsPage : (LanguageCode → Content) → LanguageCode → Content → Type 0
FitsPage fallback active c =
    (c ≡ fallback active)
    ⊎ ((c.locale ≡ active) × (is_same_json c.value (fallback active).value ≡ false))

shown_or-fits :
    (fallback : LanguageCode → Content) (active : LanguageCode) (remote : Option Content)
    → Differs fallback remote
    → FitsPage fallback active (shown_or (fallback active) active remote)
shown_or-fits fallback active none h = inl refl
shown_or-fits fallback active (some payload) h =
    by_language (same_language payload.locale active) refl
  where
    by_language :
        (own : Bool)
        → same_language payload.locale active ≡ own
        → FitsPage fallback active (if own then payload else fallback active)
    by_language false o = inl refl
    by_language true o =
        let here : payload.locale ≡ active = same_language-eq payload.locale active o in
        inr (
          here,
          ap (λ l. is_same_json payload.value (fallback l).value) (sym here) ∙ h payload refl,
        )

page-Differs :
    (fallback : LanguageCode → Content) {p : Page}
    → PageReached fallback p
    → Differs fallback p.remote
unfolding choose_language take_content
page-Differs fallback (first_shown language) q e = absurd (cc)
page-Differs fallback (chosen {p} language r) q e =
    if_both (λ (c : Page). Differs fallback c.remote) (same_language p.active language)
      (page-Differs fallback r) (page-Differs fallback r) q e
page-Differs fallback (was_answered {p} r h) q e =
    if_both (λ (c : Page). Differs fallback c.remote) p.awaits
      (take_result-Differs fallback r (record p { awaits = false }) (page-Differs fallback h))
      (page-Differs fallback h) q e

-- In every reachable state the content on screen is the static content of the active language, or a
-- payload of that language that differs from it.
pub shown_content-active :
    (fallback : LanguageCode → Content) (p : Page)
    → PageReached fallback p
    → let c = shown_content fallback p in
      (c ≡ fallback p.active)
      ⊎ ((c.locale ≡ p.active) × (is_same_json c.value (fallback p.active).value ≡ false))
unfolding shown_content
shown_content-active fallback p r =
    shown_or-fits fallback p.active p.remote (page-Differs fallback r)

take_payload-shown :
    (fallback : LanguageCode → Content) (payload : Content) (p : Page)
    → shown_content fallback (take_payload fallback payload p) ≡ (
        if not (same_language payload.locale p.active)
        then shown_content fallback p
        else if is_same_json payload.value (fallback p.active).value
        then shown_content fallback p
        else payload)
unfolding shown_content
take_payload-shown fallback payload p =
    by_tests (same_language payload.locale p.active)
      (is_same_json payload.value (fallback p.active).value) refl
  where
    by_tests :
        (own repeats : Bool)
        → same_language payload.locale p.active ≡ own
        → shown_content fallback
            (if not own then p else if repeats then p else record p { remote = some payload })
          ≡ (if not own
              then shown_content fallback p
              else if repeats
              then shown_content fallback p
              else payload)
    by_tests false repeats o = refl
    by_tests true true o = refl
    by_tests true false o = rw o refl

-- A failed request leaves the content on screen as it is, and so does a payload of another language or one
-- that repeats the static content; any other payload that is awaited is shown.
pub take_content-shown :
    (fallback : LanguageCode → Content) (p : Page) (r : Result Content)
    → p.awaits ≡ true
    → ((e : Failure)
        → r ≡ failed e
        → shown_content fallback (take_content fallback r p) ≡ shown_content fallback p)
      × ((payload : Content)
          → r ≡ done payload
          → shown_content fallback (take_content fallback r p) ≡ (
              if not (same_language payload.locale p.active)
              then shown_content fallback p
              else if is_same_json payload.value (fallback p.active).value
              then shown_content fallback p
              else payload))
unfolding shown_content take_content
take_content-shown fallback p (failed f) h = (λ e k. rw h refl, λ payload k. absurd (cc))
take_content-shown fallback p (done taken) h = (
  λ e k. absurd (cc),
  λ payload k.
      let same : taken ≡ payload = (let both : done taken ≡ done payload = k in cc) in
      rw (h, same) (take_payload-shown fallback payload (record p { awaits = false })),
)
