-- ===== src/Shell/Guard.antt =====
-- The unsaved-changes guard of frontend/src/admin/shell/AdminLayout.tsx (`guardValue`, `leave` and the
-- dialog). A page's way to forget its draft is known by a number; `forgotten` lists those that were
-- called. `proceed` is the action that leaves, and its outcome is whether leaving worked.
pub mod Safe
pub mod Links
use anthonyzng_web.Base.{
  ℕ, Bool, true, false, Option, none, some, List, [], ◌∷◌, ◌==◌, if◌then◌else◌,
}

pub record Guard : Type 0 where
  pub is_dirty : Bool
  pub discard : Option ℕ
  -- The dialog asks.
  pub asks : Bool
  -- The user has confirmed: the page's way to forget its draft, as it was then.
  pub confirmed : Option (Option ℕ)
  pub forgotten : List ℕ

unfoldable pub set_dirty : Bool → Option ℕ → Guard → Guard
set_dirty value on_discard g = record g {
  is_dirty = value;
  discard = if value then on_discard else none;
}

-- `confirmLeave`; `true` says that the action runs at once.
abbrev pub ask_if : Bool → Guard → Guard × Bool
ask_if true g = (record g { asks = true }, false)
ask_if false g = (g, true)

unfoldable pub confirm_leave : Guard → Guard × Bool
confirm_leave g = ask_if g.is_dirty g

-- The dialog's `onConfirm` and `onCancel`
unfoldable pub agree : Guard → Guard
agree g = record g { confirmed = if g.asks then some g.discard else none; asks = false }

unfoldable pub decline : Guard → Guard
decline g = record g { asks = false }

abbrev pub forget : Option ℕ → Guard → Guard
forget none g = g
forget (some page) g = record g { forgotten = page ∷ g.forgotten }

abbrev pub same_page : Option ℕ → Option ℕ → Bool
same_page none none = true
same_page (some a) (some b) = a == b
same_page _ _ = false

-- The page that was left loses its guard; a new page's is left alone.
abbrev pub disarm : Option ℕ → Guard → Guard
disarm left g =
    if same_page g.discard left then record g { is_dirty = false; discard = none } else g

-- `leave` takes the confirmation; `some` is the page whose leaving now runs.
unfoldable pub start_leave : Guard → Guard × Option (Option ℕ)
start_leave g = (record g { confirmed = none }, g.confirmed)

-- The rest of `leave`, once `proceed` has settled.
unfoldable pub end_leave : (worked : Bool) → Option ℕ → Guard → Guard
end_leave false left g = g
end_leave true left g = disarm left (forget left g)
