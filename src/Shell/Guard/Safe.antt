-- ===== src/Shell/Guard/Safe.antt =====
-- The guard loses no changes that the user did not agree to lose.
use anthonyzng_web.Base.{
  ◌⊎◌, ℕ, ◌≡◌, ◌≢◌, refl, inl, inr, Bool, true, false, Bool-cases, Option, none, some, List, [],
  ◌∷◌, ◌==◌, ==_iff, if◌then◌else◌, if_both,
}
use anthonyzng_web.Shell.Guard.{
  Guard, set_dirty, confirm_leave, ask_if, agree, decline, start_leave, end_leave, forget, disarm,
  same_page,
}

abbrev pub unguarded : Guard
unguarded = record {
  is_dirty = false;
  discard = none;
  asks = false;
  confirmed = none;
  forgotten = [];
}

abbrev pub agreed_now : Guard → List (Option ℕ) → List (Option ℕ)
agreed_now g agreed = if g.asks then g.discard ∷ agreed else agreed

abbrev pub leaving_now : Option (Option ℕ) → List (Option ℕ) → List (Option ℕ)
leaving_now none leaving = leaving
leaving_now (some page) leaving = page ∷ leaving

abbrev pub Among : {A : Type 0} → A → List A → Type 0
Among a [] = ⊥
Among a (x ∷ xs) = (x ≡ a) ⊎ Among a xs

-- The guards that come about, with the pages whose loss the user agreed to and the leavings that have
-- started.
pub data GuardReached : Guard → (agrees leaving : List (Option ℕ)) → Type 0 where
  at_start : GuardReached unguarded [] []
  page_sets :
      {g : Guard} {agrees leaving : List (Option ℕ)} (value : Bool) (on_discard : Option ℕ)
      → GuardReached g agrees leaving
      → GuardReached (set_dirty value on_discard g) agrees leaving
  asked :
      {g : Guard} {agrees leaving : List (Option ℕ)}
      → GuardReached g agrees leaving
      → GuardReached (confirm_leave g).0 agrees leaving
  agreed :
      {g : Guard} {agrees leaving : List (Option ℕ)}
      → GuardReached g agrees leaving
      → GuardReached (agree g) (agreed_now g agrees) leaving
  declined :
      {g : Guard} {agrees leaving : List (Option ℕ)}
      → GuardReached g agrees leaving
      → GuardReached (decline g) agrees leaving
  closed :
      {g : Guard} {agrees leaving : List (Option ℕ)}
      → GuardReached g agrees leaving
      → GuardReached (start_leave g).0 agrees (leaving_now (start_leave g).1 leaving)
  settled :
      {g : Guard} {agrees leaving : List (Option ℕ)} (worked : Bool) (page : Option ℕ)
      → Among page leaving
      → GuardReached g agrees leaving
      → GuardReached (end_leave worked page g) agrees leaving

-- Everything under way stands on the user's agreement.
abbrev Agreed : Guard → (agrees leaving : List (Option ℕ)) → Type 0
Agreed g agrees leaving =
    ((page : Option ℕ) → g.confirmed ≡ some page → Among page agrees)
    × ((page : Option ℕ) → Among page leaving → Among page agrees)
    × ((p : ℕ) → Among p g.forgotten → Among (some p) agrees)

ask_if-Agreed :
    (dirty : Bool) (g : Guard) (agrees leaving : List (Option ℕ))
    → Agreed g agrees leaving
    → Agreed (ask_if dirty g).0 agrees leaving
ask_if-Agreed true g agrees leaving h = h
ask_if-Agreed false g agrees leaving h = h

agree-Agreed :
    (asks : Bool) (g : Guard) (agrees leaving : List (Option ℕ))
    → Agreed g agrees leaving
    → Agreed
        (record g { confirmed = if asks then some g.discard else none; asks = false })
        (if asks then g.discard ∷ agrees else agrees)
        leaving
agree-Agreed true g agrees leaving (_, starts, ends) = (
  λ page e. inl (let both : some g.discard ≡ some page = e in cc),
  λ page m. inr (starts page m),
  λ p m. inr (ends p m),
)
agree-Agreed false g agrees leaving (_, starts, ends) = (λ page e. absurd (cc), starts, ends)

start-Agreed :
    (confirmed : Option (Option ℕ)) (g : Guard) (agrees leaving : List (Option ℕ))
    → ((page : Option ℕ) → confirmed ≡ some page → Among page agrees)
    → ((page : Option ℕ) → Among page leaving → Among page agrees)
    → (page : Option ℕ) → Among page (leaving_now confirmed leaving)
    → Among page agrees
start-Agreed none g agrees leaving h starts page m = starts page m
start-Agreed (some left) g agrees leaving h starts page (inl e) = rw (← e) (h left refl)
start-Agreed (some left) g agrees leaving h starts page (inr m) = starts page m

forget-Agreed :
    (left : Option ℕ) (g : Guard) (agrees leaving : List (Option ℕ))
    → Among left agrees
    → Agreed g agrees leaving
    → Agreed (forget left g) agrees leaving
forget-Agreed none g agrees leaving m h = h
forget-Agreed (some left) g agrees leaving m (confirms, starts, ends) =
    (confirms, starts, λ p now. elim now [ inl e ↦ rw (← e) m | inr before ↦ ends p before ])

disarm-Agreed :
    (left : Option ℕ) (g : Guard) (agrees leaving : List (Option ℕ))
    → Agreed g agrees leaving
    → Agreed (disarm left g) agrees leaving
disarm-Agreed left g agrees leaving h =
    if_both (λ (c : Guard). Agreed c agrees leaving) (same_page g.discard left) h h

end-Agreed :
    (worked : Bool) (left : Option ℕ) (g : Guard) (agrees leaving : List (Option ℕ))
    → Among left agrees
    → Agreed g agrees leaving
    → Agreed (end_leave worked left g) agrees leaving
unfolding end_leave
end-Agreed true left g agrees leaving m h =
    disarm-Agreed left (forget left g) agrees leaving (forget-Agreed left g agrees leaving m h)
end-Agreed false left g agrees leaving m h = h

reached-Agreed :
    {g : Guard} {agrees leaving : List (Option ℕ)}
    → GuardReached g agrees leaving
    → Agreed g agrees leaving
unfolding set_dirty confirm_leave agree decline start_leave
reached-Agreed at_start = (λ page e. absurd (cc), λ page m. absurd m, λ p m. absurd m)
reached-Agreed (page_sets value on_discard r) = reached-Agreed r
reached-Agreed (asked {g} {agrees} {leaving} r) =
    ask_if-Agreed g.is_dirty g agrees leaving (reached-Agreed r)
reached-Agreed (agreed {g} {agrees} {leaving} r) =
    agree-Agreed g.asks g agrees leaving (reached-Agreed r)
reached-Agreed (declined r) = reached-Agreed r
reached-Agreed (closed {g} {agrees} {leaving} r) =
    let (confirms, starts, ends) = reached-Agreed r in
    (λ page e. absurd (cc), start-Agreed g.confirmed g agrees leaving confirms starts, ends)
reached-Agreed (settled {g} {agrees} {leaving} worked page m r) =
    let (confirms, starts, ends) = reached-Agreed r in
    end-Agreed worked page g agrees leaving (starts page m) (confirms, starts, ends)

-- A page's draft is forgotten only after the user agreed to lose that page's changes, however the page,
-- the dialog and the leavings come in turn.
pub forgotten-agreed :
    (g : Guard) (agrees leaving : List (Option ℕ))
    → GuardReached g agrees leaving
    → (p : ℕ) → Among p g.forgotten
    → Among (some p) agrees
forgotten-agreed g agrees leaving r = let (_, _, ends) = reached-Agreed r in ends

-- A page with changes asks to leave, the user agrees, and the action works or fails.
unfoldable pub leave_dirty : (page : ℕ) (worked : Bool) → Guard → Guard
leave_dirty page worked g =
    let asked = confirm_leave (set_dirty true (some page) g) in
    let started = start_leave (agree asked.0) in finish started.1 started.0
  where
    finish : Option (Option ℕ) → Guard → Guard
    finish none c = c
    finish (some left) c = end_leave worked left c

-- A page with changes asks before the action runs. Once the user has agreed, that page's draft is forgotten
-- and its guard gone if the action works; if it fails, the changes, their draft and the guard stay.
pub leave_dirty-outcome :
    (page : ℕ) (worked : Bool) (g : Guard)
    → ((confirm_leave (set_dirty true (some page) g)).1 ≡ false)
      × (leave_dirty page worked g ≡ (
          if worked
          then record g {
            is_dirty = false;
            discard = none;
            asks = false;
            confirmed = none;
            forgotten = page ∷ g.forgotten;
          }
          else record g { is_dirty = true; discard = some page; asks = false; confirmed = none }))
unfolding set_dirty confirm_leave agree start_leave end_leave leave_dirty
leave_dirty-outcome page true g = (refl, rw ((==_iff page page).1 refl) refl)
leave_dirty-outcome page false g = (refl, refl)

-- A page that has put up its own guard in the meantime keeps it when the leaving of another page works.
pub end_leave-other :
    (worked : Bool) (left page : ℕ) (g : Guard)
    → page ≢ left
    → let c = end_leave worked (some left) (set_dirty true (some page) g) in
      (c.is_dirty ≡ true) × (c.discard ≡ some page)
unfolding set_dirty end_leave
end_leave-other true left page g other = elim (Bool-cases (page == left)) [
  | inl t ↦ absurd (other ((==_iff page left).0 t))
  | inr t ↦ rw t (refl, refl)
]
end_leave-other false left page g other = (refl, refl)
