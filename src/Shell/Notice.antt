-- ===== src/Shell/Notice.antt =====
-- The status line of frontend/src/admin/shell/AdminLayout.tsx: a message belongs to one page.
use anthonyzng_web.Base.{ℕ, suc, ◌≡◌, ◌≢◌, refl, Option, none, some, inl, inr, if◌then◌else◌}
use anthonyzng_web.Base.Text.{Text, text_eq}
use anthonyzng_web.Base.Text.Laws.{text_eq-cases, text_eq_refl}

pub record StatusMessage : Type 0 where
  pub id : ℕ
  pub text : Text
  pub at : Text

pub record Notice : Type 0 where
  pub message : Option StatusMessage
  pub next_id : ℕ
  pub pathname : Text

abbrev pub address : Option Text → Text → Text
address none here = here
address (some at) here = at

-- `announce`, with the page that the message is for, or the present one
unfoldable pub announce : Text → Option Text → Notice → Notice
announce text at n = record n {
  message = some (record { id = suc n.next_id; text = text; at = address at n.pathname });
  next_id = suc n.next_id;
}

abbrev pub kept_at : Text → Option StatusMessage → Option StatusMessage
kept_at path none = none
kept_at path (some m) = if text_eq m.at path then some m else none

-- Moving to another page ends a message that is meant for a different one.
unfoldable pub go_to : Text → Notice → Notice
go_to path n =
    if text_eq n.pathname path
    then n
    else record n { pathname = path; message = kept_at path n.message }

-- `shownStatus`
unfoldable pub shown_notice : Notice → Option StatusMessage
shown_notice n = kept_at n.pathname n.message

kept_at-at :
    (path : Text) (o : Option StatusMessage) {m : StatusMessage}
    → kept_at path o ≡ some m
    → m.at ≡ path
kept_at-at path none h = absurd (cc)
kept_at-at path (some k) {m} h = elim (text_eq-cases k.at path) [
  | inl (e, t) ↦ let same : some k ≡ some m = rw t at h in let same' : k ≡ m = cc in rw (← same') e
  | inr (_, t) ↦ absurd (let bad : none ≡ some m = rw t at h in cc)
]

-- A message shows only on the page that it belongs to.
pub shown_notice-at : (n : Notice) {m : StatusMessage} → shown_notice n ≡ some m → m.at ≡ n.pathname
unfolding shown_notice
shown_notice-at n h = kept_at-at n.pathname n.message h

-- A message for the page that is gone to next shows there.
pub announce-go_to :
    (text path : Text) (n : Notice)
    → n.pathname ≢ path
    → shown_notice (go_to path (announce text (some path) n))
      ≡ some (record { id = suc n.next_id; text = text; at = path })
unfolding shown_notice go_to announce
announce-go_to text path n other = elim (text_eq-cases n.pathname path) [
  | inl (e, _) ↦ absurd (other e)
  | inr (_, t) ↦ rw (t, shown_notice, text_eq_refl path) (rw (text_eq_refl path) refl)
]
