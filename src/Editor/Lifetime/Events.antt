-- ===== src/Editor/Lifetime/Events.antt =====
-- What one event does to the request and the place of the form.
use anthonyzng_web.Base.{
  ◌≡◌, ◌≢◌, refl, ◌⊎◌, inl, inr, Bool, true, false, Option, none, some, [], ◌∷◌, bind-inv,
}
use anthonyzng_web.Json.{Json}
use anthonyzng_web.Draft.{set_at}
use anthonyzng_web.Json.{str}
use anthonyzng_web.Client.{Failure, done, failed}
use anthonyzng_web.Validation.{FieldErrors, slug_key}
use anthonyzng_web.Editor.{
  at_list, at_edit_page, at_edit_page, synced_at, Place, elsewhere, leave_form, synced, Setting,
  EditorForm, at_form, at_login, item_of,
}
use anthonyzng_web.Editor.Rows.{row_changed}
use anthonyzng_web.Base.Text.{Text}
use anthonyzng_web.Editor.Typing.{
  Entries, apply_entries, edit_slug, discard_restored, image_changed, write_entries, suggests,
}
use anthonyzng_web.Editor.Saving.{checked_save, save_unless, save}
use anthonyzng_web.Editor.Answers.{
  take_latest, reloaded, take_failure, take_saved, take_result, after_save, PageStore,
}
use anthonyzng_web.Editor.Answers.Reported.{take_failure-Untouched, Untouched}
use anthonyzng_web.Editor.Lifetime.{
  EditorEvent, typed, slug_typed, discarded, image_came, submitted, was_answered, latest_came,
  was_left,
}

-- The tab stays, and so does the request that is on its way, if any.
abbrev pub IsQuiet : EditorForm → EditorForm → Type 0
IsQuiet f g = (g.place ≡ f.place) × (g.saving ≡ f.saving) × (g.sent ≡ f.sent)

-- A save is on its way.
abbrev pub IsSent : EditorForm → Type 0
IsSent g = (g.saving ≡ true) × ((sent : Json) × (g.sent ≡ some sent))

-- What can become of a form in one event.
abbrev pub Outcome : EditorForm → EditorForm → Type 0
Outcome f g =
    IsQuiet f g
    ⊎ (g.place ≡ f.place) × IsSent g
    ⊎ (g.place ≡ f.place) × (g.saving ≡ false)
    ⊎ (g.place ≡ at_login) × Untouched f g
    ⊎ (g.place ≢ at_form) × (g.place ≢ at_login)

same_of : (f : EditorForm) {g h : EditorForm} → IsQuiet f g → some g ≡ some h → IsQuiet f h
same_of f {g} {h} q e = let same : g ≡ h = cc in rw (← same) q

apply_entries-IsQuiet :
    (e : Setting) (entries : Entries) (f : EditorForm) {g : EditorForm}
    → apply_entries e entries f ≡ some g
    → IsQuiet f g
unfolding apply_entries
apply_entries-IsQuiet e entries f h =
    let (d, _, same) = bind-inv (write_entries e (suggests e f) entries f.draft) _ h in
    same_of f (refl, refl, refl) same

edit_slug-IsQuiet :
    (e : Setting) (value : Text) (f : EditorForm) {g : EditorForm}
    → edit_slug e value f ≡ some g
    → IsQuiet f g
unfolding edit_slug
edit_slug-IsQuiet e value f h =
    let (d, _, same) = bind-inv (set_at f.draft slug_key (str value)) _ h in
    same_of f (refl, refl, refl) same

checked_save-Outcome :
    (e : Setting) (found : FieldErrors) (f : EditorForm) → Outcome f (checked_save e found f).0
checked_save-Outcome e [] f = inr (inl (refl, (refl, (f.draft, refl))))
checked_save-Outcome e (_ ∷ _) f = inl (refl, refl, refl)

save_unless-Outcome : (e : Setting) (b : Bool) (f : EditorForm) → Outcome f (save_unless e b f).0
save_unless-Outcome e true f = inl (refl, refl, refl)
save_unless-Outcome e false f = checked_save-Outcome e _ f

after_save-Outcome :
    (newer : Bool) (item : Option Json) (page : PageStore) (saved : Json) (f : EditorForm)
    → Outcome f (after_save newer item page saved f)
unfolding row_changed
after_save-Outcome false item page saved f = inr (inr (inr (inr (cc, cc))))
after_save-Outcome true none page saved f = inr (inr (inr (inr (cc, cc))))
after_save-Outcome true (some _) page saved f = inr (inr (inl (refl, refl)))

take_failure-Outcome :
    (e : Setting) (failure : Failure) (sent : Json) (f : EditorForm)
    → Outcome f (take_failure e failure sent f)
take_failure-Outcome e failure sent f =
    let (quiet, stays) = take_failure-Untouched e failure sent f in
    let (_, _, _, _, over, _) = quiet in
    elim stays [
      | inl here ↦ inr (inr (inl (here, over)))
      | inr away ↦ inr (inr (inr (inl (away, quiet))))
    ]

reloaded-IsQuiet : (e : Setting) (row : Option Json) (f : EditorForm) → IsQuiet f (reloaded e row f)
unfolding row_changed
reloaded-IsQuiet e none f = (refl, refl, refl)
reloaded-IsQuiet e (some row) f = (refl, refl, refl)

-- The effect that keeps the draft leaves the rest of the form alone.
pub synced-IsQuiet : (e : Setting) (full : Bool) (g : EditorForm) → IsQuiet g (synced e full g)
unfolding synced
synced-IsQuiet e full g = by_place g.place refl
  where
    by_place : (p : Place) → g.place ≡ p → IsQuiet g (synced_at e full p g)
    by_place at_form h = (refl, refl, refl)
    by_place at_list h = (refl, refl, refl)
    by_place at_login h = (refl, refl, refl)
    by_place elsewhere h = (refl, refl, refl)
    by_place (at_edit_page _ _) h = (refl, refl, refl)

-- Every event has one of these outcomes.
pub event-Outcome : (e : Setting) {f g : EditorForm} → EditorEvent e f g → Outcome f g
unfolding discard_restored image_changed save take_result take_saved take_latest leave_form
event-Outcome e {f} (typed entries h) = inl (apply_entries-IsQuiet e entries f h)
event-Outcome e {f} (slug_typed value h) = inl (edit_slug-IsQuiet e value f h)
event-Outcome e discarded = inl (refl, refl, refl)
event-Outcome e (image_came image) = inl (refl, refl, refl)
event-Outcome e {f} submitted = save_unless-Outcome e f.saving f
event-Outcome e {f} (was_answered page (done saved) _) =
    after_save-Outcome _ (item_of f) page saved f
event-Outcome e {f} (was_answered page (failed failure) _) = take_failure-Outcome e failure _ f
event-Outcome e {f} (latest_came row) = inl (reloaded-IsQuiet e row f)
event-Outcome e {f} was_left = inr (inr (inr (inr (cc, cc))))
