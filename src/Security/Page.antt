-- ===== src/Security/Page.antt =====
-- frontend/src/admin/pages/SecurityPage.tsx: setting two-factor sign-in up, and what follows a change of it.
-- A setup is any value; the page's data is `totp`, and the counts say how often the data, the summary
-- and the focus of the heading were asked for.
use anthonyzng_web.Base.{
  ℕ, suc, Bool, true, false, Option, none, some, ◌==◌, if◌then◌else◌, ◌≡◌, ◌≢◌, ◌⊎◌, refl, inl, inr,
  if_both,
}
use anthonyzng_web.Client.{
  Result, done, failed, aborted, network_error, payload_error, http_error, HttpError,
}
use anthonyzng_web.Security.{ConfirmEnd, stays, changes, conflicts, expires}

pub data SetupState : Type 0 where
  idle starting start_failed : SetupState

pub record SecurityPage {ℓ} (S T : Type ℓ) : Type ℓ where
  pub totp : T
  pub setup : Option S
  pub setup_state : SetupState
  pub has_expired : Bool
  pub reloads : ℕ
  pub refreshes : ℕ
  pub heading_focus : ℕ

abbrev pub is_starting : SetupState → Bool
is_starting starting = true
is_starting _ = false

module _ {ℓ} {S T : Type ℓ} where
  -- `conflict`: two-factor sign-in was changed elsewhere.
  unfoldable pub conflict : SecurityPage S T → SecurityPage S T
  conflict p = record p {
    setup = none;
    reloads = suc p.reloads;
    heading_focus = suc p.heading_focus;
  }

  -- `changed`
  unfoldable pub changed : T → SecurityPage S T → SecurityPage S T
  changed status p = record p {
    totp = status;
    setup = none;
    refreshes = suc p.refreshes;
    heading_focus = suc p.heading_focus;
  }

  abbrev pub begin_unless : Bool → SecurityPage S T → SecurityPage S T × Bool
  begin_unless true p = (p, false)
  begin_unless false p = (record p { setup_state = starting }, true)

  -- `begin` up to its request
  unfoldable pub begin : SecurityPage S T → SecurityPage S T × Bool
  begin p = begin_unless (is_starting p.setup_state) p

  abbrev pub not_started : HttpError → SecurityPage S T → SecurityPage S T
  not_started h p =
      if h.status == 401
      then record p { has_expired = true }
      else if h.status == 409
      then conflict (record p { setup_state = idle })
      else record p { setup_state = start_failed }

  -- The answer to `begin`
  unfoldable pub take_setup : Result S → SecurityPage S T → SecurityPage S T
  take_setup (done s) p = record p { setup = some s; setup_state = idle }
  take_setup (failed aborted) p = p
  take_setup (failed (http_error h)) p = not_started h p
  take_setup (failed _) p = record p { setup_state = start_failed }

  -- `Cancel`
  unfoldable pub cancel_setup : SecurityPage S T → SecurityPage S T
  cancel_setup p = record p { setup = none }

  -- What the page does at the end of a confirmation
  unfoldable pub take_end : ConfirmEnd T → SecurityPage S T → SecurityPage S T
  take_end (stays f) p = p
  take_end (changes status) p = changed status p
  take_end conflicts p = conflict p
  take_end expires p = record p { has_expired = true }

  -- After an answer to a setup, other than an abort, the session has expired or a setup may be asked for
  -- again.
  pub take_setup-settles :
      (r : Result S) (p : SecurityPage S T)
      → r ≢ failed aborted
      → let q = take_setup r p in (q.has_expired ≡ true) ⊎ (is_starting q.setup_state ≡ false)
  unfolding take_setup conflict
  take_setup-settles (done s) p h = inr refl
  take_setup-settles (failed aborted) p h = absurd (h refl)
  take_setup-settles (failed network_error) p h = inr refl
  take_setup-settles (failed payload_error) p h = inr refl
  take_setup-settles (failed (http_error e)) p h =
      let Settled : SecurityPage S T → Type 0 =
        λ q. (q.has_expired ≡ true) ⊎ (is_starting q.setup_state ≡ false) in
      if_both Settled (e.status == 401) (inl refl)
        (if_both Settled (e.status == 409) (inr refl) (inr refl))
