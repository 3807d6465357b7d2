-- ===== src/Shell/Guard/Links.antt =====
-- Links of the panel and the guard: `isPlainLeftClick` of frontend/src/animations/useScrollTo.ts,
-- admin/hooks/useGuardedClick.ts and admin/hooks/useUnsavedChanges.ts.
use anthonyzng_web.Base.{
  ℕ, ◌≡◌, ◌↔◌, refl, sym, ◌∙◌, Bool, true, false, not, ◌&&◌, and_split, and_intro, some, none, ◌==◌,
}
use anthonyzng_web.Shell.Guard.{Guard, set_dirty, confirm_leave}

pub record Click : Type 0 where
  pub button : ℕ
  pub meta : Bool
  pub ctrl : Bool
  pub shift : Bool
  pub alt : Bool
  pub default_prevented : Bool

unfoldable pub is_plain_left_click : Click → Bool
is_plain_left_click c =
    c.button == 0 && not c.meta && not c.ctrl && not c.shift && not c.alt && not c.default_prevented

abbrev pub guarded_if : (asks : Bool) → Guard → Guard × Bool
guarded_if true g = ((confirm_leave g).0, true)
guarded_if false g = (g, false)

-- The click handler of `useGuardedClick`; `true` says that the link's own navigation is prevented.
unfoldable pub guarded_click : Click → Guard → Guard × Bool
guarded_click c g = guarded_if (is_plain_left_click c && g.is_dirty) g

-- The effects of `useUnsavedChanges`, for the page of this number: while it is mounted, and at its end
unfoldable pub keep_unsaved : (dirty : Bool) → (page : ℕ) → Guard → Guard
keep_unsaved dirty page g = set_dirty dirty (some page) g

unfoldable pub end_unsaved : Guard → Guard
end_unsaved g = set_dirty false none g

-- A click on a link is held back exactly where it is a plain one on a page with changes. Then the dialog
-- asks and the changes stay; any other click leaves the guard as it is.
pub guarded_click-asks :
    (c : Click) (g : Guard)
    → (((guarded_click c g).1 ≡ true) ↔ ((is_plain_left_click c ≡ true) × (g.is_dirty ≡ true)))
      × ((guarded_click c g).1 ≡ true → (guarded_click c g).0 ≡ record g { asks = true })
      × ((guarded_click c g).1 ≡ false → (guarded_click c g).0 ≡ g)
unfolding guarded_click confirm_leave
guarded_click-asks c g = by_asks (is_plain_left_click c && g.is_dirty) refl
  where
    by_asks :
        (b : Bool)
        → (is_plain_left_click c && g.is_dirty) ≡ b
        → (((guarded_if b g).1 ≡ true) ↔ ((is_plain_left_click c ≡ true) × (g.is_dirty ≡ true)))
          × ((guarded_if b g).1 ≡ true → (guarded_if b g).0 ≡ record g { asks = true })
          × ((guarded_if b g).1 ≡ false → (guarded_if b g).0 ≡ g)
    by_asks true h =
        let (plain, dirty) = and_split (is_plain_left_click c) g.is_dirty h in
        ((λ k. (plain, dirty), λ k. refl), λ k. rw dirty refl, λ k. absurd (cc))
    by_asks false h = (
      (
        λ k. absurd (cc),
        λ (plain, dirty). absurd (let bad : false ≡ true = sym h ∙ and_intro plain dirty in cc),
      ),
      λ k. absurd (cc),
      λ k. refl,
    )
