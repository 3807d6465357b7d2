-- ===== src/Modals/Released.antt =====
-- The page is never left unable to scroll, and a draft in the contact dialog stays.
use anthonyzng_web.Base.{◌≡◌, ◌≢◌, ◌⊎◌, refl, inl, inr, Bool, true, false, Option, none, some}
use anthonyzng_web.Modals.{
  Modal, run_as, open_unless, open_menu, close_if, close_dialog, close_menu, close_menu_if,
  leave_menu, close_event, lenis_changes, show_unless, show_contact,
}

abbrev pub closed_modal : Option Bool → Modal
closed_modal lenis = record {
  is_shown = false;
  is_open = false;
  close_due = false;
  mounted = false;
  lenis = lenis;
}

pub data MenuReached : Modal → Type 0 where
  menu_rests : MenuReached (closed_modal none)
  menu_opened : {m : Modal} → MenuReached m → MenuReached (open_menu m)
  menu_closed : {m : Modal} → MenuReached m → MenuReached (close_menu m)
  menu_escaped : {m : Modal} → MenuReached m → MenuReached (close_dialog m)
  menu_left : {m : Modal} → MenuReached m → MenuReached (leave_menu m)
  menu_event : {m : Modal} → MenuReached m → MenuReached (close_event m)
  menu_lenis :
      {m : Modal} (is_there : Bool) → MenuReached m → MenuReached (lenis_changes is_there m)

pub data ContactReached : Modal → Type 0 where
  contact_rests : ContactReached (closed_modal none)
  contact_shown : {m : Modal} → ContactReached m → ContactReached (show_contact m)
  contact_closed : {m : Modal} → ContactReached m → ContactReached (close_dialog m)
  contact_event : {m : Modal} → ContactReached m → ContactReached (close_event m)
  contact_lenis :
      {m : Modal} (is_there : Bool) → ContactReached m → ContactReached (lenis_changes is_there m)

-- Scrolling that is held has a dialog on screen, or the event of its closing yet to come.
abbrev Released : Modal → Type 0
Released m = m.lenis ≡ some false → (m.is_shown ≡ true) ⊎ (m.close_due ≡ true)

running : (o : Option Bool) → run_as true o ≢ some false
running none h = cc
running (some b) h = cc

open_unless-Released : (b : Bool) (m : Modal) → Released m → Released (open_unless b m)
open_unless-Released true m h = h
open_unless-Released false m h = λ k. inl refl

show_unless-Released : (b : Bool) (m : Modal) → Released m → Released (show_unless b m)
show_unless-Released true m h = h
show_unless-Released false m h = λ k. inl refl

close_if-Released : (b : Bool) (m : Modal) → Released m → Released (close_if b m)
close_if-Released true m h = λ k. inr refl
close_if-Released false m h = h

close_menu-Released : (m : Modal) → Released (close_menu m)
unfolding close_menu
close_menu-Released m = λ k. absurd (running m.lenis k)

close_menu_if-Released : (b : Bool) (m : Modal) → Released m → Released (close_menu_if b m)
close_menu_if-Released true m h = close_menu-Released m
close_menu_if-Released false m h = h

lenis_changes-Released : (b : Bool) (m : Modal) → Released (lenis_changes b m)
unfolding lenis_changes
lenis_changes-Released true m = λ k. absurd (cc)
lenis_changes-Released false m = λ k. absurd (cc)

menu_keeps-Released : (m : Modal) → MenuReached m → Released m
unfolding open_menu close_dialog leave_menu close_event
menu_keeps-Released _ menu_rests = λ k. absurd (cc)
menu_keeps-Released _ (menu_opened {m} r) =
    open_unless-Released m.is_shown m (menu_keeps-Released m r)
menu_keeps-Released _ (menu_closed {m} r) = close_menu-Released m
menu_keeps-Released _ (menu_escaped {m} r) =
    close_if-Released m.is_shown m (menu_keeps-Released m r)
menu_keeps-Released _ (menu_left {m} r) =
    close_menu_if-Released m.is_shown m (menu_keeps-Released m r)
menu_keeps-Released _ (menu_event {m} r) = λ k. absurd (running m.lenis k)
menu_keeps-Released _ (menu_lenis {m} b r) = lenis_changes-Released b m

-- However the menu is opened, closed, escaped from and left: where scrolling is held, the menu is on screen or the
-- event of its closing is yet to come.
pub menu-Released :
    (m : Modal) → MenuReached m → m.lenis ≡ some false → (m.is_shown ≡ true) ⊎ (m.close_due ≡ true)
menu-Released m r h = menu_keeps-Released m r h

contact_keeps-Released : (m : Modal) → ContactReached m → Released m
unfolding show_contact close_dialog close_event
contact_keeps-Released _ contact_rests = λ k. absurd (cc)
contact_keeps-Released _ (contact_shown {m} r) =
    show_unless-Released m.is_shown m (contact_keeps-Released m r)
contact_keeps-Released _ (contact_closed {m} r) =
    close_if-Released m.is_shown m (contact_keeps-Released m r)
contact_keeps-Released _ (contact_event {m} r) = λ k. absurd (running m.lenis k)
contact_keeps-Released _ (contact_lenis {m} b r) = lenis_changes-Released b m

-- The same of the contact dialog.
pub contact-Released :
    (m : Modal)
    → ContactReached m
    → m.lenis ≡ some false
    → (m.is_shown ≡ true) ⊎ (m.close_due ≡ true)
contact-Released m r h = contact_keeps-Released m r h
