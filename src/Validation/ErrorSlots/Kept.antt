-- ===== src/Validation/ErrorSlots/Kept.antt =====
-- `mapServerFields` drops no rejection, and shows errors at slots only.
use anthonyzng_web.Base.{
  ◌≡◌, refl, ap, ◌∙◌, ◌≢◌, ◌⊎◌, inl, inr, Bool, true, false, none, some, List, [], ◌∷◌,
  if◌then◌else◌, All,
}
use anthonyzng_web.Base.Text.{Text, text_eq}
use anthonyzng_web.Base.Text.Laws.{text_eq-cases, text_eq_refl}
use anthonyzng_web.Base.Dict.{
  keys, lookup, insert_new, IsIn, IsIn-left, IsIn-right, IsIn-head, lookup-insert_new-none,
  lookup-insert_new-kept, All-keys-insert_new,
}
use anthonyzng_web.Validation.{FieldErrors, server_rejected}
use anthonyzng_web.Validation.ErrorSlots.{
  Placed, place_at, place_all, map_server_fields, slot_for, body_key,
}
use anthonyzng_web.Validation.ErrorSlots.Placement.{slot_for-body, slot_for-IsClosest}

slot_for-IsIn :
    (slots : List Text) (path : Text)
    → (slot_for slots path ≡ []) ⊎ IsIn (slot_for slots path) slots
slot_for-IsIn slots path = elim (text_eq-cases path body_key) [
  | inl (e, _) ↦ inl (ap (slot_for slots) e ∙ slot_for-body slots)
  | inr (n, _) ↦ elim (slot_for-IsClosest slots path n) [
    | inl (e, _) ↦ inl e
    | inr (_, i, _, _) ↦ inr i
  ]
]

-- A rejection is shown at its slot, or else handed back.
abbrev pub IsKept : List Text → Placed → Text → Type 0
IsKept slots placed path =
    (slot_for slots path ≡ []) × IsIn path placed.unmatched
    ⊎ (slot_for slots path ≢ [])
      × (lookup (slot_for slots path) placed.errors ≡ some server_rejected)

-- Every error so far is the same message.
abbrev OnlyRejected : FieldErrors → Type 0
OnlyRejected errors =
    (k : Text) → (lookup k errors ≡ none) ⊎ (lookup k errors ≡ some server_rejected)

OnlyRejected-insert_new :
    (k : Text) (errors : FieldErrors)
    → OnlyRejected errors
    → OnlyRejected (insert_new k server_rejected errors)
OnlyRejected-insert_new k errors o j = elim (o j) [
  | inl e ↦ rw (lookup-insert_new-none k j server_rejected errors e) (either (text_eq k j))
  | inr e ↦ inr (lookup-insert_new-kept k j server_rejected errors e)
]
  where
    either :
        (b : Bool)
        → ((if b then some server_rejected else none) ≡ none)
          ⊎ ((if b then some server_rejected else none) ≡ some server_rejected)
    either true = inr refl
    either false = inl refl

-- What is kept stays kept while other rejections are placed.
IsKept-place_at :
    (slots : List Text) (slot path other : Text) (placed : Placed)
    → IsKept slots placed other
    → IsKept slots (place_at slot path placed) other
IsKept-place_at slots [] path other placed (inl (e, h)) =
    inl (e, IsIn-left other placed.unmatched (path ∷ []) h)
IsKept-place_at slots [] path other placed (inr h) = inr h
IsKept-place_at slots (c ∷ s) path other placed (inl h) = inl h
IsKept-place_at slots (c ∷ s) path other placed (inr (e, h)) =
    inr (e, lookup-insert_new-kept (c ∷ s) (slot_for slots other) server_rejected placed.errors h)

OnlyRejected-place_at :
    (slot path : Text) (placed : Placed)
    → OnlyRejected placed.errors
    → OnlyRejected (place_at slot path placed).errors
OnlyRejected-place_at [] path placed o = o
OnlyRejected-place_at (c ∷ s) path placed o = OnlyRejected-insert_new (c ∷ s) placed.errors o

lookup-insert_new_self :
    (k : Text) (errors : FieldErrors)
    → OnlyRejected errors
    → lookup k (insert_new k server_rejected errors) ≡ some server_rejected
lookup-insert_new_self k errors o = elim (o k) [
  | inl e ↦ lookup-insert_new-none k k server_rejected errors e ∙ rw (text_eq_refl k)
  | inr e ↦ lookup-insert_new-kept k k server_rejected errors e
]

-- A rejection is kept by the round that places it.
IsKept-here :
    (slots : List Text) (slot path : Text) (placed : Placed)
    → slot_for slots path ≡ slot
    → OnlyRejected placed.errors
    → IsKept slots (place_at slot path placed) path
IsKept-here slots [] path placed e o =
    inl (e, IsIn-right path placed.unmatched (path ∷ []) (IsIn-head path []))
IsKept-here slots (c ∷ s) path placed e o =
    inr ((λ e'. cc), rw e (lookup-insert_new_self (c ∷ s) placed.errors o))

place_all-IsKept :
    (slots paths : List Text) (other : Text) (placed : Placed)
    → IsKept slots placed other
    → IsKept slots (place_all slots paths placed) other
unfolding place_all
place_all-IsKept slots [] other placed h = h
place_all-IsKept slots (path ∷ paths) other placed h =
    place_all-IsKept slots paths other _
      (IsKept-place_at slots (slot_for slots path) path other placed h)

place_all-AllKept :
    (slots paths : List Text) (placed : Placed)
    → OnlyRejected placed.errors
    → All (IsKept slots (place_all slots paths placed)) paths
unfolding place_all
place_all-AllKept slots [] placed o = tt
place_all-AllKept slots (path ∷ paths) placed o =
    let slot = slot_for slots path in
    (
      place_all-IsKept slots paths path _ (IsKept-here slots slot path placed refl o),
      place_all-AllKept slots paths (place_at slot path placed)
          (OnlyRejected-place_at slot path placed o),
    )

-- Each key of the server's answer is shown at its slot, or is among the unmatched.
pub map_server_fields-IsKept :
    (fields : List (Text × Text)) (slots : List Text)
    → All (IsKept slots (map_server_fields fields slots)) (keys fields)
unfolding map_server_fields
map_server_fields-IsKept fields slots =
    place_all-AllKept slots (keys fields) (record { errors = []; unmatched = [] })
      (λ k. inl (unfold lookup in refl))

place_all-slots :
    (slots paths : List Text) (placed : Placed)
    → All (λ k. IsIn k slots) (keys placed.errors)
    → All (λ k. IsIn k slots) (keys (place_all slots paths placed).errors)
unfolding place_all
place_all-slots slots [] placed h = h
place_all-slots slots (path ∷ paths) placed h =
    place_all-slots slots paths _ (placed_here (slot_for slots path) (slot_for-IsIn slots path))
  where
    placed_here :
        (slot : Text)
        → (slot ≡ []) ⊎ IsIn slot slots
        → All (λ k. IsIn k slots) (keys (place_at slot path placed).errors)
    placed_here [] s = h
    placed_here (c ∷ s) (inl e) = absurd (cc)
    placed_here (c ∷ s) (inr i) =
        All-keys-insert_new (λ k. IsIn k slots) (c ∷ s) server_rejected placed.errors i h

-- The errors that the server's answer leaves stand at slots of the form only.
pub map_server_fields-slots :
    (fields : List (Text × Text)) (slots : List Text)
    → All (λ k. IsIn k slots) (keys (map_server_fields fields slots).errors)
unfolding map_server_fields
map_server_fields-slots fields slots =
    place_all-slots slots (keys fields) (record { errors = []; unmatched = [] }) tt
