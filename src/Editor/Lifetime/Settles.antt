-- ===== src/Editor/Lifetime/Settles.antt =====
-- The end of a save that is on its way.
use anthonyzng_web.Base.{
  ◌⊎◌, ◌≢◌, if_both, Bool, ◌≡◌, refl, sym, ◌∙◌, inl, inr, true, false, Option, none, some,
}
use anthonyzng_web.Json.{Json}
use anthonyzng_web.Client.{Result, done, failed}
use anthonyzng_web.Editor.{
  at_login, same_draft, item_of, Kept, Setting, EditorForm, at_form, synced, open_form, clean_form,
  opened_with, read_kept,
}
use anthonyzng_web.Editor.Answers.{PageStore, after_save, take_saved, take_result}
use anthonyzng_web.Editor.Lifetime.{OpenForm, took, opened, then_event, was_answered}
use anthonyzng_web.Editor.Lifetime.Events.{Outcome, IsQuiet, event-Outcome, synced-IsQuiet}
use anthonyzng_web.Editor.Answers.Reported.{take_failure-Untouched}

-- A form that shows a save on its way has sent one.
abbrev pub HasSent : EditorForm → Type 0
HasSent f = f.place ≡ at_form → f.saving ≡ true → (sent : Json) × (f.sent ≡ some sent)

HasSent-IsQuiet : (f g : EditorForm) → IsQuiet f g → HasSent f → HasSent g
HasSent-IsQuiet f g (place, saving, sent) h here shown =
    let (s, e) = h (sym place ∙ here) (sym saving ∙ shown) in (s, sent ∙ e)

event-HasSent : (f g : EditorForm) → f.place ≡ at_form → Outcome f g → HasSent f → HasSent g
event-HasSent f g at (inl quiet) h here shown = HasSent-IsQuiet f g quiet h here shown
event-HasSent f g at (inr (inl (_, (_, sent)))) h here shown = sent
event-HasSent f g at (inr (inr (inl (_, over)))) h here shown =
    absurd (let bad : true ≡ false = sym shown ∙ over in cc)
event-HasSent f g at (inr (inr (inr (inl (away, _))))) h here shown =
    absurd (let bad : at_login ≡ at_form = sym away ∙ here in cc)
event-HasSent f g at (inr (inr (inr (inr (n, _))))) h here shown = absurd (n here)

opened_with-saving :
    (e : Setting) (kept : Option Kept) (f : EditorForm) → (opened_with e kept f).saving ≡ f.saving
opened_with-saving e none f = refl
opened_with-saving e (some k) f =
    if_both (λ (g : EditorForm). g.saving ≡ f.saving) (same_draft k.draft f.draft) refl refl

pub form-HasSent :
    (e : Setting) {took_it : Bool} (f : EditorForm) → OpenForm e took_it f → HasSent f
unfolding open_form
form-HasSent e _ (opened full slug rows kept) here shown =
    let clean = record (clean_form e slug rows) { kept = kept } in
    let read = read_kept clean.draft kept in
    let (_, same, _) = synced-IsQuiet e full (opened_with e read clean) in
    absurd (let bad : true ≡ false = sym shown ∙ same ∙ opened_with-saving e read clean in cc)
form-HasSent e _ (then_event {f} {g} full r at event) here shown =
    HasSent-IsQuiet g (synced e full g) (synced-IsQuiet e full g)
      (event-HasSent f g at (event-Outcome e event) (form-HasSent e f r)) here shown

-- Off the form, or free to save again.
abbrev pub IsSettled : EditorForm → Type 0
IsSettled g = (g.sent ≡ none) × ((g.place ≢ at_form) ⊎ (g.saving ≡ false))

IsSettled-IsQuiet : (f g : EditorForm) → IsQuiet f g → IsSettled f → IsSettled g
IsSettled-IsQuiet f g (place, saving, sent) (over, free) = (
  sent ∙ over,
  elim free [ inl gone ↦ inl (λ here. gone (sym place ∙ here)) | inr quiet ↦ inr (saving ∙ quiet) ],
)

after_save-IsSettled :
    (newer : Bool) (item : Option Json) (page : PageStore) (saved : Json) (f : EditorForm)
    → IsSettled (after_save newer item page saved f)
after_save-IsSettled false item page saved f = (refl, inl (λ h. absurd (cc)))
after_save-IsSettled true none page saved f = (refl, inl (λ h. absurd (cc)))
after_save-IsSettled true (some _) page saved f = (refl, inr refl)

take_result-IsSettled :
    (e : Setting) (page : PageStore) (result : Result Json) (sent : Json) (f : EditorForm)
    → IsSettled (take_result e page result sent f)
unfolding take_result take_saved
take_result-IsSettled e page (done saved) sent f = after_save-IsSettled _ (item_of f) page saved f
take_result-IsSettled e page (failed failure) sent f =
    let ((_, _, _, _, over, gone), _) = take_failure-Untouched e failure sent f in (gone, inr over)

-- A form that is saving always waits for an answer, and every answer, saved or failed, leads on: the
-- form is then free to save again, or the tab has left it.
pub form-settles :
    (e : Setting) {took_it : Bool} (f : EditorForm)
    → OpenForm e took_it f
    → f.place ≡ at_form
    → f.saving ≡ true
    → (sent : Json) × (f.sent ≡ some sent)
      × ((page : PageStore) (result : Result Json) (full : Bool)
          → let g = take_result e page result sent f in
            OpenForm e (took g.place full took_it) (synced e full g) × IsSettled (synced e full g))
form-settles e {took_it} f r here shown =
    let (sent, h) = form-HasSent e f r here shown in
    (
      sent,
      h,
      λ page result full.
          let g = take_result e page result sent f in
          (
            then_event full r here (was_answered page result h),
            IsSettled-IsQuiet g (synced e full g) (synced-IsQuiet e full g)
                (take_result-IsSettled e page result sent f),
          ),
    )
