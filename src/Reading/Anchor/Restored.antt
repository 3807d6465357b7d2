-- ===== src/Reading/Anchor/Restored.antt =====
-- A rebuild restores the place that the reader had before it.
use anthonyzng_web.Base.{◌≡◌, true, Option, List, [], ◌∷◌}
use anthonyzng_web.Reading.Anchor.{
  Anchored, LayoutEvent, scroll_ended, refreshed, refresh_began, reverted, handle,
}

module _ {A : Type 0} where
  -- The events of a rebuild before its end
  pub data Within : List (LayoutEvent A) → Type 0 where
    no_more : Within []
    then_scroll :
        {es : List (LayoutEvent A)} (now : Option A) → Within es → Within (scroll_ended now ∷ es)
    then_refreshed :
        {es : List (LayoutEvent A)} (now : Option A) → Within es → Within (refreshed now ∷ es)
    then_began : {es : List (LayoutEvent A)} → Within es → Within (refresh_began ∷ es)
    then_reverted : {es : List (LayoutEvent A)} → Within es → Within (reverted ∷ es)

  unfoldable pub handle_all : List (LayoutEvent A) → Anchored A → Anchored A
  handle_all [] s = s
  handle_all (e ∷ es) s = handle_all es (handle e s)

  abbrev Keeps : Anchored A → Anchored A → Type 0
  Keeps s t = (t.rebuilding ≡ true) × (t.anchor ≡ s.anchor) × (t.restored ≡ s.restored)
