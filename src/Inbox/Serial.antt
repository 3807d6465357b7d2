-- ===== src/Inbox/Serial.antt =====
-- One change at a time for each message, and a badge that follows.
use anthonyzng_web.Base.{
  ℕ, suc, ◌≡◌, refl, sym, ap, ◌∙◌, Bool, true, false, none, some, ◌-◌, if◌then◌else◌, arith,
  if_both, not,
}
use anthonyzng_web.Base.Text.{Text}
use anthonyzng_web.Client.{done}
use anthonyzng_web.Inbox.{
  Message, Inbox, is_read, holds_id, toggle, mark_unread, marked_read, marked_unread, less_one,
  one_more,
}

-- While a change of a message is on its way, no other change of it is sent.
pub pending-waits :
    (m : Message) (s : Inbox)
    → holds_id m.id s.pending ≡ true
    → ((toggle m s).1 ≡ false) × ((mark_unread m s).1 ≡ false)
unfolding toggle mark_unread
pending-waits m s h = (
  if_both (λ (p : Inbox × Bool). p.1 ≡ false) (holds_id m.id s.open_ids) refl
      (if_both (λ (p : Inbox × Bool). p.1 ≡ false) (is_read m.read_at) refl (rw h refl)),
  rw h refl,
)

-- Where the badge counts a message, the server's answers that it is read and then unread again
-- leave the badge as it was.
pub unread-restored :
    (m opened closed : Message) (s s' : Inbox) (n : ℕ) (moment : Text)
    → s.unread ≡ some (suc n)
    → opened.read_at ≡ some moment
    → closed.read_at ≡ none
    → s'.unread ≡ (marked_read m (done opened) s).unread
    → (marked_unread opened (done closed) s').unread ≡ s.unread
unfolding marked_read marked_unread
unread-restored m opened closed s s' n moment u r c e =
    let badge = s'.unread in
    let pred_suc : suc n - 1 ≡ n = omega arith in
    let after : badge ≡ some n =
      e
      ∙ ap (λ x. if is_read x then less_one s.unread else s.unread) r
      ∙ ap less_one u
      ∙ ap some pred_suc in
    ap
      (λ x.
        if (if is_read x then not (is_read closed.read_at) else false)
        then one_more badge
        else badge)
      r
    ∙ ap (λ x. if not (is_read x) then one_more badge else badge) c
    ∙ ap one_more after
    ∙ sym u
