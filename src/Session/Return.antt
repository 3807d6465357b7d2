-- ===== src/Session/Return.antt =====
-- Where a login returns to, and who sees the panel.
use anthonyzng_web.Base.{◌≡◌, refl, ap, inl, inr, true, Option, none, some, Bool-cases}
use anthonyzng_web.Base.Text.{Text, starts_with}
use anthonyzng_web.Session.{
  Session, unknown, signed_in, signed_out, expired, Entry, checking, entered, anonymous,
  check_failed, panel, gate, is_way_back, is_admin_after, read_from, dashboard,
}

dashboard-is_way_back : is_way_back dashboard ≡ true
unfolding is_admin_after starts_with
dashboard-is_way_back = refl

-- Whatever the router's state holds, a login returns to a page of the panel other than the login page.
pub read_from-is_way_back : (state : Option Text) → is_way_back (read_from state) ≡ true
unfolding read_from
read_from-is_way_back none = dashboard-is_way_back
read_from-is_way_back (some from) = elim (Bool-cases (is_way_back from)) [
  | inl e ↦ rw e e
  | inr e ↦ rw e dashboard-is_way_back
]

-- The panel is shown to a signed-in session only, whose check has passed.
pub gate-panel :
    (s : Session) (entry : Entry) (address : Text)
    → gate s entry ≡ panel address
    → (s ≡ signed_in address) × (entry ≡ entered)
unfolding gate
gate-panel (signed_in a) entered address h =
    (let same : a ≡ address = cc h in ap signed_in same, refl)
gate-panel (signed_in a) checking address h = absurd (cc)
gate-panel (signed_in a) anonymous address h = absurd (cc)
gate-panel (signed_in a) check_failed address h = absurd (cc)
gate-panel unknown checking address h = absurd (cc)
gate-panel unknown entered address h = absurd (cc)
gate-panel unknown anonymous address h = absurd (cc)
gate-panel unknown check_failed address h = absurd (cc)
gate-panel signed_out checking address h = absurd (cc)
gate-panel signed_out entered address h = absurd (cc)
gate-panel signed_out anonymous address h = absurd (cc)
gate-panel signed_out check_failed address h = absurd (cc)
gate-panel expired entry address h = absurd (cc)
