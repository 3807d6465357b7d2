-- ===== src/Inbox/Paging/Reached.antt =====
-- Every message has its page, and an empty page leads back to one that has messages.
use anthonyzng_web.Base.{
  ltb→lt, ℕ, ◌+◌, ◌-◌, ◌/◌, ◌≤◌, ◌<◌, min, ◌≡◌, ◌↔◌, refl, arith, Bool, true, false, none, some,
  ltb, if◌then◌else◌,
}
use anthonyzng_web.Api.{page_size}
use anthonyzng_web.Inbox.Paging.{offset, pages_of, next_link}

-- The messages that a server with `total` of them gives for a page.
abbrev pub held_at : (page total : ℕ) → ℕ
held_at page total = min page_size (total - offset page)

-- A page from 1 on is within the pages of a view with messages exactly where it holds a message.
pub pages_of-holds :
    (page total : ℕ) → 1 ≤ page → 0 < total → (page ≤ pages_of total) ↔ (0 < held_at page total)
unfolding pages_of
pages_of-holds page total h k = (λ p. omega (arith, h, k, p), λ p. omega (arith, h, k, p))

-- Each message stands on one of the pages.
pub pages_of-covers :
    (i total : ℕ)
    → i < total
    → (page : ℕ) × (1 ≤ page)
      × (page ≤ pages_of total)
      × (offset page ≤ i)
      × (i < offset page + page_size)
unfolding pages_of
pages_of-covers i total h = (i / 50 + 1, omega arith, omega (arith, h), omega arith, omega arith)

next_holds :
    (page total next : ℕ)
    → 1 ≤ page
    → page < pages_of total
    → page + 1 ≡ next
    → 0 < held_at next total
unfolding pages_of
next_holds page total next h before after = omega (arith, h, before, after)

-- The link to the next page leads to one with messages.
pub next_link-holds :
    (page total next : ℕ) → 1 ≤ page → next_link page total ≡ some next → 0 < held_at next total
unfolding next_link pages_of
next_link-holds page total next h k = by_order (ltb page (pages_of total)) refl k
  where
    by_order :
        (b : Bool)
        → ltb page (pages_of total) ≡ b
        → (if b then some (page + 1) else none) ≡ some next
        → 0 < held_at next total
    by_order true t e =
        let after : page + 1 ≡ next = (let both : some (page + 1) ≡ some next = e in cc) in
        let before : page < pages_of total = ltb→lt page (pages_of total) t in
        next_holds page total next h before after
    by_order false t e = absurd (let bad : none ≡ some next = e in cc)
