-- ===== src/Tests/Panel.antt =====
-- Runs of the shell of the panel, of the inbox's pages, of the security page and of the public content.
use anthonyzng_web.Base.{
  Option, reverse, ℕ, List, ◌⊎◌, ◌≡◌, refl, true, false, none, some, [], ◌∷◌, inl,
}
use anthonyzng_web.Base.Text.{text_eq, Text, units}
use anthonyzng_web.Json.{is_same_json, str}
use anthonyzng_web.Codes.{LanguageCode, en_code}
use anthonyzng_web.Client.{Failure, Result, done, failed, network_error}
use anthonyzng_web.Session.{signed_in}
use anthonyzng_web.Shell.Badge.{Badge, count_is, refresh, set_unread, take_summary}
use anthonyzng_web.Shell.Guard.{end_leave, start_leave, agree, confirm_leave, set_dirty, Guard}
use anthonyzng_web.Shell.Guard.Safe.{
  at_start, page_sets, asked, agreed, closed, settled, GuardReached, unguarded, forgotten-agreed,
  Among,
}
use anthonyzng_web.Shell.SignOut.{Leaver}
use anthonyzng_web.Shell.SignOut.Outcome.{sign_out_from-outcome, StayedIn, sign_out_from, WentOut}
use anthonyzng_web.Shell.Badge.Fresh.{
  refresh-IsHeard, FollowsUp, refreshed, at_first, take_summary-older, then_event, first_badge,
  refresh_all, BadgeReached,
}
use anthonyzng_web.SiteContent.{shown_content, first_page, take_content, Content}
use anthonyzng_web.Segments.{segment_words, Patterns}
use anthonyzng_web.Segments.Whole.{join, shown_text, segment_words-join}
use anthonyzng_web.Segments.Breaks.{segment_words-Breakable, Breakable}
use anthonyzng_web.SiteContent.Shown.{first_shown, was_answered, shown_content-active}
use anthonyzng_web.Dialog.{close_came, set_open, set_busy, platform_closes}
use anthonyzng_web.Dialog.InStep.{
  at_rest, page_says, was_busied, platform_closed, close_event, dialog-InStep, closed_dialog,
}

-- A page with changes, number 7, was left and its leaving worked.
abbrev left_page : Guard
left_page = record {
  is_dirty = false;
  discard = none;
  asks = false;
  confirmed = none;
  forgotten = 7 ∷ [];
}

left_page-reached : GuardReached left_page (some 7 ∷ []) (some 7 ∷ [])
unfolding set_dirty confirm_leave agree start_leave end_leave
left_page-reached =
    settled true (some 7) (inl refl) (closed (agreed (asked (page_sets true (some 7) at_start))))

forgotten-agreed_example : Among {A = Option ℕ} (some 7) (some 7 ∷ [])
forgotten-agreed_example =
    forgotten-agreed left_page (some 7 ∷ []) (some 7 ∷ []) left_page-reached 7 (inl refl)

abbrev at_work : Leaver
at_work = record {
  session = signed_in (units "a@b.c");
  signing_out = false;
  at_login = false;
  shows_failure = false;
}

abbrev no_answer : Result Text
no_answer = failed network_error

sign_out_from-outcome_example :
    ((a : Text) × (no_answer ≡ done a)
      × WentOut 7 (unguarded, at_work) (sign_out_from 7 no_answer (unguarded, at_work)))
    ⊎ ((e : Failure) × (no_answer ≡ failed e)
        × StayedIn 7 (unguarded, at_work) (sign_out_from 7 no_answer (unguarded, at_work)))
sign_out_from-outcome_example = sign_out_from-outcome 7 no_answer unguarded at_work

-- The summary is on its way.
abbrev asking : Badge
asking = record first_badge { running = some 0 }

asking-reached : BadgeReached asking
unfolding refresh
asking-reached = then_event at_first (refreshed false)

take_summary-older_example :
    (take_summary (done 5) (refresh_all (true ∷ []) (set_unread (count_is 3) asking))).0.unread
    ≡ some 3
take_summary-older_example =
    take_summary-older asking (count_is 3) (true ∷ []) (done 5) asking-reached refl

abbrev static : LanguageCode → Content
static language = record { locale = language; value = str (units "static") }

abbrev new_payload : Content
new_payload = record { locale = en_code; value = str (units "new") }

shown_content-active_example :
    let p = take_content static (done new_payload) (first_page en_code) in
    let c = shown_content static p in
    (c ≡ static p.active)
    ⊎ ((c.locale ≡ p.active) × (is_same_json c.value (static p.active).value ≡ false))
shown_content-active_example =
    shown_content-active static (take_content static (done new_payload) (first_page en_code))
      (was_answered (done new_payload) (first_shown en_code))

-- A comma may not begin a line, and a bracket may not end one.
abbrev marks : Patterns
marks = record {
  is_white = text_eq (units " ");
  no_break_before = text_eq (units ",");
  no_break_after = text_eq (units "(");
}

abbrev pieces : List Text
pieces = units "ab" ∷ units "," ∷ units " " ∷ units "(" ∷ units "cd" ∷ []

segment_words-Breakable_example : Breakable marks (reverse (segment_words marks pieces))
segment_words-Breakable_example = segment_words-Breakable marks pieces

segment_words-join_example : join (segment_words marks pieces) ≡ shown_text marks false pieces
segment_words-join_example = segment_words-join marks pieces

-- Asked for again while a request is on its way
refresh-IsHeard_example :
    ((refresh true asking).1 ≡ true)
    ⊎ ((r : Result ℕ) → FollowsUp (take_summary r (refresh true asking).0))
refresh-IsHeard_example = refresh-IsHeard asking

-- The platform closes the dialog of a request that runs, and its close event comes.
dialog-InStep_example :
    let d = close_came (platform_closes (set_busy true (set_open true closed_dialog))) in
    ((d.is_shown ≡ false) ⊎ (d.is_open ≡ true))
    × ((d.is_open ≡ false) ⊎ (d.close_due ≡ true) ⊎ (d.is_shown ≡ true))
unfolding platform_closes set_busy set_open
dialog-InStep_example =
    dialog-InStep (close_came (platform_closes (set_busy true (set_open true closed_dialog))))
      (close_event (platform_closed (was_busied true (page_says true at_rest))) refl)
