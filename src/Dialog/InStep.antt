-- ===== src/Dialog/InStep.antt =====
-- The dialog and its page never disagree for longer than a close event takes, and a request that runs is
-- never left without its dialog.
use anthonyzng_web.Base.{
  inr, inl, Bool-cases, ◌⊎◌, suc, ◌≡◌, refl, ap, Bool, true, false, if◌then◌else◌, if_both,
}
use anthonyzng_web.Dialog.{
  Dialog, show_as, set_open, set_busy, cancel, cancel_unless, press_confirm, platform_closes,
  close_with, close_came,
}

abbrev pub closed_dialog : Dialog
closed_dialog = record {
  is_open = false;
  is_shown = false;
  close_due = false;
  is_busy = false;
  closed = 0;
  confirmed = 0;
}

pub data DialogReached : Dialog → Type 0 where
  at_rest : DialogReached closed_dialog
  page_says : {d : Dialog} (opens : Bool) → DialogReached d → DialogReached (set_open opens d)
  was_busied : {d : Dialog} (busy : Bool) → DialogReached d → DialogReached (set_busy busy d)
  was_cancelled : {d : Dialog} → DialogReached d → DialogReached (cancel d)
  was_confirmed : {d : Dialog} → DialogReached d → DialogReached (press_confirm d)
  platform_closed : {d : Dialog} → DialogReached d → DialogReached (platform_closes d)
  close_event : {d : Dialog} → DialogReached d → d.close_due ≡ true → DialogReached (close_came d)

-- A dialog that is shown is open, and one that is open is shown or has a close event to come.
abbrev InStep : Dialog → Type 0
InStep d =
    (d.is_shown ≡ true → d.is_open ≡ true)
    × (d.is_open ≡ true → d.close_due ≡ false → d.is_shown ≡ true)

show_as-InStep :
    (opens shown : Bool) (d : Dialog) → d.is_shown ≡ shown → InStep (show_as opens shown d)
show_as-InStep true shown d h = (λ k. refl, λ k c. refl)
show_as-InStep false true d h = (λ k. absurd (cc), λ k c. absurd (cc))
show_as-InStep false false d h = (λ k. absurd (cc), λ k c. absurd (cc))

set_open-InStep : (opens : Bool) (d : Dialog) → InStep (set_open opens d)
unfolding set_open
set_open-InStep opens d = show_as-InStep opens d.is_shown d refl

cancel_unless-InStep : (busy : Bool) (d : Dialog) → InStep d → InStep (cancel_unless busy d)
cancel_unless-InStep true d h = h
cancel_unless-InStep false d h = set_open-InStep false d

close_with-InStep :
    (opens busy : Bool) (d : Dialog)
    → d.is_open ≡ opens
    → (d.is_shown ≡ true → d.is_open ≡ true)
    → InStep (close_with opens busy d)
close_with-InStep true true d o s = (λ k. o, λ k c. refl)
close_with-InStep true false d o s = set_open-InStep false d
close_with-InStep false busy d o s = (s, λ k c. absurd (cc))

dialog_keeps-InStep : (d : Dialog) → DialogReached d → InStep d
unfolding set_busy cancel press_confirm platform_closes close_came
dialog_keeps-InStep _ at_rest = (λ k. absurd (cc), λ k c. absurd (cc))
dialog_keeps-InStep _ (page_says {d} opens r) = set_open-InStep opens d
dialog_keeps-InStep _ (was_busied {d} busy r) = dialog_keeps-InStep d r
dialog_keeps-InStep _ (was_cancelled {d} r) =
    cancel_unless-InStep d.is_busy d (dialog_keeps-InStep d r)
dialog_keeps-InStep _ (was_confirmed {d} r) =
    if_both InStep d.is_busy (dialog_keeps-InStep d r) (dialog_keeps-InStep d r)
dialog_keeps-InStep _ (platform_closed {d} r) =
    if_both InStep d.is_shown (λ k. absurd (cc), λ k c. absurd (cc)) (dialog_keeps-InStep d r)
dialog_keeps-InStep _ (close_event {d} r h) =
    close_with-InStep d.is_open d.is_busy (record d { close_due = false }) refl
      (dialog_keeps-InStep d r).0

-- In every reachable state a dialog that is shown is open, and one that is open is shown unless the event
-- of its closing is still to come.
pub dialog-InStep :
    (d : Dialog)
    → DialogReached d
    → ((d.is_shown ≡ false) ⊎ (d.is_open ≡ true))
      × ((d.is_open ≡ false) ⊎ (d.close_due ≡ true) ⊎ (d.is_shown ≡ true))
dialog-InStep d r =
    let (opens, shows) = dialog_keeps-InStep d r in
    (
      elim (Bool-cases d.is_shown) [ inl s ↦ inr (opens s) | inr s ↦ inl s ],
      elim (Bool-cases d.is_open) [
        | inr o ↦ inl o
        | inl o ↦ elim (Bool-cases d.close_due) [
          | inl c ↦ inr (inl c)
          | inr c ↦ inr (inr (shows o c))
        ]
      ],
    )

-- While a request runs, the buttons, Escape and a closing by the platform leave the dialog open and, once
-- the close event has come, shown.
pub busy-stays :
    (d : Dialog)
    → d.is_busy ≡ true
    → d.is_open ≡ true
    → (cancel d ≡ d)
      × (press_confirm d ≡ d)
      × (let c = close_came (platform_closes d) in
          (c.is_open ≡ true) × (c.is_shown ≡ true) × (c.closed ≡ d.closed))
unfolding cancel press_confirm platform_closes close_came
busy-stays d b o = (
  ap (λ x. cancel_unless x d) b,
  ap (λ x. if x then d else record d { confirmed = suc d.confirmed }) b,
  by_shown d.is_shown,
)
  where
    by_shown :
        (shown : Bool)
        → let e = if shown then record d { is_shown = false; close_due = true } else d in
          let c = close_with e.is_open e.is_busy (record e { close_due = false }) in
          (c.is_open ≡ true) × (c.is_shown ≡ true) × (c.closed ≡ d.closed)
    by_shown true = rw (o, b) (refl, refl, refl)
    by_shown false = rw (o, b) (refl, refl, refl)
