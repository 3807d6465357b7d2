-- ===== src/Shell/SignOut/Outcome.antt =====
-- A sign-out that fails loses nothing.
use anthonyzng_web.Base.{
  not, ◌⊎◌, ℕ, ◌∷◌, ◌≡◌, ◌≢◌, refl, ap, inl, inr, Bool, true, false, Option, none, some,
  if◌then◌else◌, if_both,
}
use anthonyzng_web.Base.Text.{Text}
use anthonyzng_web.Base.Text.Laws.{text_eq-cases, text_eq_refl}
use anthonyzng_web.Client.{Result, done, failed, Failure}
use anthonyzng_web.Session.{signed_out, expired}
use anthonyzng_web.Shell.Guard.{Guard}
use anthonyzng_web.Shell.Guard.Safe.{leave_dirty, leave_dirty-outcome}
use anthonyzng_web.Shell.SignOut.{
  is_unauthorized, Leaver, start_sign_out, sign_out_answer, not_signed_out, press_menu,
  is_menu_open,
}

-- Signing out from a page with changes, once the user has agreed to lose them
unfoldable pub sign_out_from :
    {A : Type 0} → (page : ℕ) → Result A → Guard × Leaver → Guard × Leaver
sign_out_from page r (g, l) =
    let answered = sign_out_answer r (start_sign_out l) in
    (leave_dirty page answered.1 g, answered.0)

abbrev pub WentOut : ℕ → Guard × Leaver → Guard × Leaver → Type 0
WentOut page (g, l) (c, m) =
    (m.session ≡ signed_out)
    × (m.at_login ≡ true)
    × (c.is_dirty ≡ false)
    × (c.forgotten ≡ page ∷ g.forgotten)

abbrev pub StayedIn : ℕ → Guard × Leaver → Guard × Leaver → Type 0
StayedIn page (g, l) (c, m) =
    (m.at_login ≡ l.at_login)
    × (m.signing_out ≡ false)
    × ((m.session ≡ expired) ⊎ ((m.session ≡ l.session) × (m.shows_failure ≡ true)))
    × (c.is_dirty ≡ true)
    × (c.discard ≡ some page)
    × (c.forgotten ≡ g.forgotten)

not_signed_out-tells :
    (e : Failure) (l : Leaver)
    → let m = not_signed_out e l in
      (m.at_login ≡ l.at_login)
      × (m.signing_out ≡ false)
      × ((m.session ≡ expired) ⊎ ((m.session ≡ l.session) × (m.shows_failure ≡ true)))
not_signed_out-tells e l =
    if_both
      (λ (m : Leaver).
        (m.at_login ≡ l.at_login)
        × (m.signing_out ≡ false)
        × ((m.session ≡ expired) ⊎ ((m.session ≡ l.session) × (m.shows_failure ≡ true))))
      (is_unauthorized e) (refl, refl, inl refl) (refl, refl, inr (refl, refl))

-- A sign-out from a page with changes that the server takes signs out, goes to the login page and forgets
-- that page's draft. One that fails stays where it is, with the changes, their draft and the guard, and
-- either the session has expired or the failure is shown.
pub sign_out_from-outcome :
    {A : Type 0} (page : ℕ) (r : Result A) (g : Guard) (l : Leaver)
    → ((a : A) × (r ≡ done a) × WentOut page (g, l) (sign_out_from page r (g, l)))
      ⊎ ((e : Failure) × (r ≡ failed e) × StayedIn page (g, l) (sign_out_from page r (g, l)))
unfolding sign_out_from start_sign_out sign_out_answer
sign_out_from-outcome page (done a) g l = inl (
  a,
  refl,
  (
    refl,
    refl,
    ap (λ c. c.is_dirty) (leave_dirty-outcome page true g).1,
    ap (λ c. c.forgotten) (leave_dirty-outcome page true g).1,
  ),
)
sign_out_from-outcome page (failed f) g l = inr (
  f,
  refl,
  (let (stays, ends, tells) = not_signed_out-tells f (start_sign_out l) in
      (
        stays,
        ends,
        tells,
        ap (λ c. c.is_dirty) (leave_dirty-outcome page false g).1,
        ap (λ c. c.discard) (leave_dirty-outcome page false g).1,
        ap (λ c. c.forgotten) (leave_dirty-outcome page false g).1,
      )),
)

-- The menu's button turns it over, and on another page it is closed.
pub press_menu-is_open :
    (here : Text) (open_at : Option Text)
    → (is_menu_open (press_menu here open_at) here ≡ not (is_menu_open open_at here))
      × ((there : Text) → here ≢ there → is_menu_open (press_menu here open_at) there ≡ false)
unfolding press_menu
press_menu-is_open here open_at = by_menu (is_menu_open open_at here) refl
  where
    by_menu :
        (b : Bool)
        → is_menu_open open_at here ≡ b
        → let c = if b then none else some here in
          (is_menu_open c here ≡ not b)
          × ((there : Text) → here ≢ there → is_menu_open c there ≡ false)
    by_menu true e = (refl, λ there h. refl)
    by_menu false e = (
      text_eq_refl here,
      λ there h. elim (text_eq-cases here there) [
        | inl (same, _) ↦ absurd (h same)
        | inr (_, t) ↦ t
      ],
    )
