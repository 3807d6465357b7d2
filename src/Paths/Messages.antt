-- ===== src/Paths/Messages.antt =====
-- The inbox's page as read from an address.
use anthonyzng_web.Base.{
  ℕ, ◌+◌, ◌*◌, ◌≤◌, ◌≡◌, refl, inl, inr, true, false, Option, none, [], ◌∷◌, ltb, arith, Bool-cases,
  ◌-◌,
}
use anthonyzng_web.Base.Text.{Text, digits_value, units}
use anthonyzng_web.Paths.{is_page, page_of, read_messages_search, or_blank_text}

digits_value-le : (acc : ℕ) (s : Text) → acc ≤ digits_value acc s
unfolding digits_value
digits_value-le acc [] = omega arith
digits_value-le acc (c ∷ s) = omega (arith, digits_value-le (acc * 10 + (c - b'0')) s)

digits_value-positive : (c : ℕ) (s : Text) → is_page (c ∷ s) ≡ true → 1 ≤ digits_value 0 (c ∷ s)
unfolding digits_value is_page
digits_value-positive c s h =
    let first : 1 ≤ 0 * 10 + (c - b'0') = ground arith in
    omega (arith, first, digits_value-le (0 * 10 + (c - b'0')) s)

page_of-positive : (raw : Text) → 1 ≤ page_of raw
unfolding page_of
page_of-positive [] = unfold is_page in omega arith
page_of-positive (c ∷ s) = elim (Bool-cases (is_page (c ∷ s))) [
  | inl e ↦ rw e (digits_value-positive c s e)
  | inr e ↦ rw e (omega arith)
]

-- Whatever the address says, the page is 1 or a later one, and the first page carries no moment.
pub read_messages_search-page :
    (get : Text → Option Text)
    → (1 ≤ (read_messages_search get).page)
      × ((read_messages_search get).page ≤ 1 → (read_messages_search get).as_of ≡ none)
unfolding read_messages_search
read_messages_search-page get =
    let page = page_of (or_blank_text (get (units "page"))) in
    (
      page_of-positive (or_blank_text (get (units "page"))),
      λ h. let first : ltb 1 page ≡ false = ground arith in rw first refl,
    )
