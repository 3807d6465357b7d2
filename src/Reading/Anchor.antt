-- ===== src/Reading/Anchor.antt =====
-- frontend/src/animations/useScrollAnchor.ts: the reader's place while the layout is rebuilt. `A` is what
-- `readAnchor` gives; the events that read it carry what it reads then.
pub mod Restored
use anthonyzng_web.Base.{Bool, true, false, Option, none, some, List, ◌∷◌}

pub record Anchored (A : Type 0) : Type 0 where
  pub anchor : Option A
  pub refreshing : Bool
  pub rebuilding : Bool
  -- The anchors that were restored, the latest first
  pub restored : List A

-- What ScrollTrigger tells, with what `readAnchor` gives where it is read.
pub data LayoutEvent (A : Type 0) : Type 0 where
  scroll_ended refreshed : (now : Option A) → LayoutEvent A
  refresh_began reverted : LayoutEvent A
  rebuilt : (now : Option A) → LayoutEvent A

module _ {A : Type 0} where
  abbrev pub read_unless : (rebuilding : Bool) → Option A → Anchored A → Anchored A
  read_unless true now s = s
  read_unless false now s = record s { anchor = now }

  abbrev pub revert_in : (refreshing : Bool) → Anchored A → Anchored A
  revert_in true s = s
  revert_in false s = record s { rebuilding = true }

  abbrev pub restore : Option A → List A → List A
  restore none before = before
  restore (some a) before = a ∷ before

  abbrev pub rebuilt_in : (rebuilding : Bool) → Option A → Anchored A → Anchored A
  rebuilt_in false now s = s
  rebuilt_in true now s = record s {
    rebuilding = false;
    restored = restore s.anchor s.restored;
    anchor = now;
  }

  unfoldable pub handle : LayoutEvent A → Anchored A → Anchored A
  handle (scroll_ended now) s = read_unless s.rebuilding now s
  handle refresh_began s = record s { refreshing = true }
  handle (refreshed now) s = read_unless s.rebuilding now (record s { refreshing = false })
  handle reverted s = revert_in s.refreshing s
  handle (rebuilt now) s = rebuilt_in s.rebuilding now s
