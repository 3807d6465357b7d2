-- ===== src/Validation/ErrorSlots/Placement.antt =====
-- Where `mapServerFields` puts a rejection: on the longest slot that the path starts with, dot by dot.
use mathlib.Core.List.{append_assoc}
use anthonyzng_web.Base.{
  ℕ, zero, suc, ◌≤◌, ◌<◌, ◌≡◌, refl, sym, ap, ◌∙◌, ◌≢◌, ◌⊎◌, inl, inr, true, false, none, some,
  List, [], ◌∷◌, ◌++◌, if◌then◌else◌, Bool-cases, Option-cases, length, length-append, arith,
  ==_iff,
}
use anthonyzng_web.Base.Text.{Text, dot, text_eq}
use anthonyzng_web.Base.Text.Laws.{NoDot, text_eq_refl, text_eq_ne}
use anthonyzng_web.Base.Dict.{has, IsIn}
use anthonyzng_web.Validation.ErrorSlots.{cut_last, or_empty, climb, body_key, slot_for}

-- `p` is the whole path, or the part of it before some dot.
abbrev pub IsAncestor : Text → Text → Type 0
IsAncestor p path = (path ≡ p) ⊎ ((r : Text) × (path ≡ p ++ dot ∷ r))

cut_last-none : (s : Text) → cut_last s ≡ none → NoDot s
unfolding cut_last
cut_last-none [] h = tt
cut_last-none (c ∷ s) h = elim (Option-cases (cut_last s)) [
  | inl e ↦ ((λ d. absurd (ground (arith, ==_iff c dot))), cut_last-none s e)
  | inr (p, e) ↦ absurd (ground arith)
]

cut_last-some :
    (s : Text) {p : Text} → cut_last s ≡ some p → (t : Text) × (s ≡ p ++ dot ∷ t) × NoDot t
unfolding cut_last
cut_last-some [] h = absurd (cc)
cut_last-some (c ∷ s) {p} h = elim (Option-cases (cut_last s)) [
  | inl e ↦
      let at_dot : c ≡ dot = ground arith in
      let empty : [] ≡ p = ground arith in (s, rw (← empty, at_dot) refl, cut_last-none s e)
  | inr (q, e) ↦
      let (t, f, nd) = cut_last-some s e in
      let longer : c ∷ q ≡ p = ground arith in (t, rw (← longer) (ap (c ∷◌) f), nd)
]

NoDot-here : (q r : Text) → NoDot (q ++ dot ∷ r) → ⊥
NoDot-here [] r (n, _) = n refl
NoDot-here (c ∷ q) r (_, h) = NoDot-here q r h

-- A cut of `p ++ dot ∷ t`, with no dot in `t`, is at that dot or within `p`.
cut_within : (p q t r : Text) → NoDot t → p ++ dot ∷ t ≡ q ++ dot ∷ r → IsAncestor q p
cut_within [] [] t r n e = inl refl
cut_within [] (d ∷ q) t r n e =
    let same : t ≡ q ++ dot ∷ r = cc in absurd (NoDot-here q r (rw same at n))
cut_within (a ∷ p) [] t r n e = let same : a ≡ dot = cc in inr (p, rw same refl)
cut_within (a ∷ p) (d ∷ q) t r n e =
    let head : a ≡ d = cc in
    let rest : p ++ dot ∷ t ≡ q ++ dot ∷ r = cc in
    elim (cut_within p q t r n rest) [ inl same ↦ inl (cc) | inr (s, f) ↦ inr (s, cc) ]

length-IsAncestor : (q path : Text) → IsAncestor q path → length q ≤ length path
length-IsAncestor q path (inl e) = omega (arith, ap length e)
length-IsAncestor q path (inr (r, e)) = omega (arith, ap length e, length-append q (dot ∷ r))

-- The result of the climb from a candidate.
abbrev pub IsClosest : List Text → Text → Text → Type 0
IsClosest slots path r =
    (r ≡ []) × ((q : Text) → IsAncestor q path → q ≢ [] → has q slots ≡ false)
    ⊎ (r ≢ [])
      × IsIn r slots
      × IsAncestor r path
      × ((q : Text) → IsAncestor q path → q ≢ [] → IsIn q slots → length q ≤ length r)

IsAncestor-up : (p t r : Text) → IsAncestor r p → IsAncestor r (p ++ dot ∷ t)
IsAncestor-up p t r (inl e) = inr (t, ap (λ (x : Text). x ++ dot ∷ t) e)
IsAncestor-up p t r (inr (s, e)) =
    inr (s ++ dot ∷ t, ap (λ (x : Text). x ++ dot ∷ t) e ∙ append_assoc r (dot ∷ s) (dot ∷ t))

-- From the part before the last dot, where the candidate itself is no slot.
IsClosest-up :
    (slots : List Text) (p t r : Text)
    → NoDot t
    → has (p ++ dot ∷ t) slots ≡ false
    → IsClosest slots p r
    → IsClosest slots (p ++ dot ∷ t) r
IsClosest-up slots p t r n missing (inl (e, no_slot)) = inl (
  e,
  λ q a ne. elim a [
    | inl same ↦ rw (← same) missing
    | inr (r', cut) ↦ no_slot q (cut_within p q t r' n cut) ne
  ],
)
IsClosest-up slots p t r n missing (inr (ne, at_slot, above, longest)) = inr (
  ne,
  at_slot,
  IsAncestor-up p t r above,
  λ q a ne' s. elim a [
    | inl same ↦ absurd (let bad : true ≡ false = sym s ∙ rw (← same) missing in cc)
    | inr (r', cut) ↦ longest q (cut_within p q t r' n cut) ne' s
  ],
)

climb_nil : (slots : List Text) (fuel : ℕ) → climb slots fuel [] ≡ []
unfolding climb text_eq
climb_nil slots zero = refl
climb_nil slots (suc fuel) = refl

IsClosest-nil : (slots : List Text) → IsClosest slots [] []
IsClosest-nil slots =
    inl (refl, λ q a ne. absurd (elim a [ inl same ↦ ne (sym same) | inr (r, e) ↦ not_nil q r e ]))
  where
    not_nil : (q r : Text) → [] ≡ q ++ dot ∷ r → ⊥
    not_nil [] r e = cc
    not_nil (c ∷ q) r e = cc

-- A candidate that is a slot is the closest one.
IsClosest-self :
    (slots : List Text) (a : ℕ) (c : Text) → IsIn (a ∷ c) slots → IsClosest slots (a ∷ c) (a ∷ c)
IsClosest-self slots a c h =
    inr ((λ e. cc), h, inl refl, λ q anc ne s. length-IsAncestor q (a ∷ c) anc)

-- A candidate with no dot that is no slot has no slot above it.
IsClosest-top :
    (slots : List Text) (c : Text) → NoDot c → has c slots ≡ false → IsClosest slots c []
IsClosest-top slots c n missing = inl (
  refl,
  λ q a ne. elim a [
    | inl same ↦ rw (← same) missing
    | inr (r, e) ↦ absurd (NoDot-here q r (rw e at n))
  ],
)

climb_step :
    (slots : List Text) (fuel a : ℕ) (c : Text)
    → climb slots (suc fuel) (a ∷ c)
      ≡ (if has (a ∷ c) slots then a ∷ c else climb slots fuel (or_empty (cut_last (a ∷ c))))
unfolding climb text_eq
climb_step slots fuel a c = refl

climb-IsClosest :
    (slots : List Text) (fuel : ℕ) (c : Text)
    → length c < fuel
    → IsClosest slots c (climb slots fuel c)
climb-IsClosest slots zero c h = absurd (omega arith)
climb-IsClosest slots (suc fuel) [] h = rw (climb_nil slots (suc fuel)) (IsClosest-nil slots)
climb-IsClosest slots (suc fuel) (a ∷ c) h = elim (Bool-cases (has (a ∷ c) slots)) [
  | inl e ↦ rw (climb_step slots fuel a c, e) (IsClosest-self slots a c e)
  | inr e ↦ elim (Option-cases (cut_last (a ∷ c))) [
    | inl f ↦
        rw (climb_step slots fuel a c, e, f, climb_nil slots fuel)
          (IsClosest-top slots (a ∷ c) (cut_last-none (a ∷ c) f) e)
    | inr (p, f) ↦
        let (t, g, n) = cut_last-some (a ∷ c) f in
        rw (climb_step slots fuel a c, e, f, g)
          (IsClosest-up slots p t (climb slots fuel p) n (rw g at e)
            (climb-IsClosest slots fuel p (omega (arith, ap length g, length-append p (dot ∷ t)))))
  ]
]

-- A rejection of the whole row goes to no slot.
pub slot_for-body : (slots : List Text) → slot_for slots body_key ≡ []
unfolding slot_for
slot_for-body slots = rw (text_eq_refl body_key)

-- A rejection of any path but `body` goes to the longest slot that its path starts with, dot by
-- dot, and to none only where there is none.
pub slot_for-IsClosest :
    (slots : List Text) (path : Text) → path ≢ body_key → IsClosest slots path (slot_for slots path)
unfolding slot_for
slot_for-IsClosest slots path ne =
    rw (text_eq_ne ne) (climb-IsClosest slots (suc (length path)) path (omega arith))
