-- ===== src/Draft/Writable.antt =====
-- When a write succeeds, and that it keeps drafts well formed.
use mathlib.Core.Path.{subst}
use anthonyzng_web.Base.{
  ℕ, zero, suc, ◌≡◌, refl, ◌∙◌, sym, ap, Option, none, some, inl, inr, arith, List, [], ◌∷◌,
  Option-cases,
}
use anthonyzng_web.Base.Text.{Text, split_dot}
use anthonyzng_web.Base.Text.Laws.{text_eq-cases}
use anthonyzng_web.Json.{
  Json, arr, obj, Items, nil, cons, Members, end, member, item_at, find, put, WellFormed,
  AllWellFormed, Distinct,
}
use anthonyzng_web.Json.Keys.{find-put_ne}
use anthonyzng_web.Json.Equivalence.{Distinct-find}
use anthonyzng_web.Draft.{to_index, child, walk, get_at, set_item, child_of, store, set_in, set_at}
use anthonyzng_web.Draft.Access.{set_in-inv, store_arr-inv, walk_cons, child_arr, child_arr_none}

set_item-some :
    (xs : Items) (i : ℕ) (u v : Json)
    → item_at xs i ≡ some u
    → (ys : Items) × (set_item xs i v ≡ some ys)
unfolding item_at set_item
set_item-some nil i u v e = absurd (cc)
set_item-some (cons x xs) zero u v e = (cons v xs, refl)
set_item-some (cons x xs) (suc i) u v e =
    let (ys, f) = set_item-some xs i u v e in (cons x ys, rw f)

store-some :
    (v : Json) (w : Text) (c u : Json)
    → child v w ≡ some c
    → (d : Json) × (store (some v) w u ≡ some d)
unfolding child store
store-some (arr xs) w c u e = elim (Option-cases (to_index w)) [
  | inl f ↦ absurd (ground arith)
  | inr (i, f) ↦ let (ys, g) = set_item-some xs i c u (ground arith) in (arr ys, rw (f, store, g))
]
store-some (obj ms) w c u e = (obj (put w u ms), refl)
store-some _ w c u e = absurd (cc)

set_in_cons :
    (v : Option Json) (w : Text) (ws : List Text) (next : Json) {u : Json}
    → set_in (child_of v w) ws next ≡ some u
    → set_in v (w ∷ ws) next ≡ store v w u
unfolding set_in
set_in_cons v w ws next e = rw (e, set_in)

set_in_under :
    (v : Json) (w : Text) (ws : List Text) (next : Json) {c u : Json}
    → child v w ≡ some c
    → set_in (some c) ws next ≡ some u
    → set_in (some v) (w ∷ ws) next ≡ store (some v) w u
set_in_under v w ws next {c} {u} f g =
    let below : child_of (some v) w ≡ some c = unfold child_of in f in
    set_in_cons (some v) w ws next {u = u} (ap (λ o. set_in o ws next) below ∙ g)

set_in-some :
    (v : Json) (ws : List Text) (u next : Json)
    → walk v ws ≡ some u
    → (d : Json) × (set_in (some v) ws next ≡ some d)
set_in-some v [] u next e = (next, unfold set_in in refl)
set_in-some v (w ∷ ws) u next e = elim (Option-cases (child v w)) [
  | inl f ↦ let bad : none ≡ some u = rw f at (sym (walk_cons v w ws) ∙ e) in absurd (cc)
  | inr (c, f) ↦
      let (d, g) = set_in-some c ws u next (rw f at (sym (walk_cons v w ws) ∙ e)) in
      let (d', h) = store-some v w c d f in (d', set_in_under v w ws next f g ∙ h)
]

-- A path that has a value can be written.
pub set_at-some :
    (d : Json) (path : Text) (u next : Json)
    → get_at d path ≡ some u
    → (d' : Json) × (set_at d path next ≡ some d')
unfolding get_at set_at
set_at-some d path u next e = set_in-some d (split_dot path) u next e

put-Distinct :
    (k : Text) (v : Json) (ms : Members) → WellFormed v → Distinct ms → Distinct (put k v ms)
unfolding WellFormed put find
put-Distinct k v end wv d = (refl, wv, tt)
put-Distinct k v (member j u ms) wv (fresh, wu, d) = elim (text_eq-cases j k) [
  | inl (_, t) ↦ rw t (fresh, wv, d)
  | inr (n, t) ↦ rw t (find-put_ne j k v ms (λ e. n (sym e)) ∙ fresh, wu, put-Distinct k v ms wv d)
]

set_item-AllWellFormed :
    (xs : Items) (i : ℕ) (v : Json) {ys : Items}
    → set_item xs i v ≡ some ys
    → WellFormed v
    → AllWellFormed xs
    → AllWellFormed ys
unfolding WellFormed set_item
set_item-AllWellFormed nil zero v {ys} e wv w = let h : cons v nil ≡ ys = cc in rw (← h) (wv, tt)
set_item-AllWellFormed nil (suc i) v e wv w = absurd (cc)
set_item-AllWellFormed (cons x xs) zero v {ys} e wv (_, w) =
    let h : cons v xs ≡ ys = cc in rw (← h) (wv, w)
set_item-AllWellFormed (cons x xs) (suc i) v {ys} e wv (wx, w) =
    elim (Option-cases (set_item xs i v)) [
      | inl f ↦ absurd (ground arith)
      | inr (zs, f) ↦
          let h : cons x zs ≡ ys = ground arith in
          rw (← h) (wx, set_item-AllWellFormed xs i v f wv w)
    ]

abbrev WellFormedOf : Option Json → Type 0
WellFormedOf none = Unit
WellFormedOf (some v) = WellFormed v

item_at-WellFormed : (xs : Items) (i : ℕ) → AllWellFormed xs → WellFormedOf (item_at xs i)
unfolding WellFormed item_at
item_at-WellFormed nil i w = tt
item_at-WellFormed (cons x xs) zero (w, _) = w
item_at-WellFormed (cons x xs) (suc i) (_, w) = item_at-WellFormed xs i w

child_of-WellFormed : (v : Option Json) (w : Text) → WellFormedOf v → WellFormedOf (child_of v w)
unfolding child_of child WellFormed
child_of-WellFormed none w h = tt
child_of-WellFormed (some (arr xs)) w h = elim (Option-cases (to_index w)) [
  | inl f ↦ subst WellFormedOf (sym (child_arr_none xs w f)) tt
  | inr (i, f) ↦ subst WellFormedOf (sym (child_arr xs w i f)) (item_at-WellFormed xs i h)
]
child_of-WellFormed (some (obj ms)) w h = elim (Option-cases (find w ms)) [
  | inl f ↦ rw f tt
  | inr (u, f) ↦ rw f (Distinct-find w ms h f)
]
child_of-WellFormed (some _) w h = tt

store-WellFormed :
    (v : Option Json) (w : Text) (u : Json) {d : Json}
    → store v w u ≡ some d
    → WellFormedOf v
    → WellFormed u
    → WellFormed d
unfolding WellFormed
store-WellFormed (some (arr xs)) w u e h wu =
    let (i, ys, f, g, same) = store_arr-inv xs w u e in
    rw same (set_item-AllWellFormed xs i u g wu h)
store-WellFormed (some (obj ms)) w u {d} e h wu =
    let same : obj (put w u ms) ≡ d = unfold store in cc in rw (← same) (put-Distinct w u ms wu h)
store-WellFormed v w u {d} e h wu =
    let same : obj (put w u end) ≡ d = unfold store in cc in
    rw (← same) (put-Distinct w u end wu tt)

set_in-WellFormed :
    (v : Option Json) (ws : List Text) (next : Json) {d : Json}
    → set_in v ws next ≡ some d
    → WellFormedOf v
    → WellFormed next
    → WellFormed d
set_in-WellFormed v [] next {d} e h w = let same : next ≡ d = unfold set_in in cc in rw (← same) w
set_in-WellFormed v (w ∷ ws) next e h wn =
    let (u, f, g) = set_in-inv v w ws next e in
    store-WellFormed v w u g h
      (set_in-WellFormed (child_of v w) ws next f (child_of-WellFormed v w h) wn)

-- A successful write of a well-formed value to a well-formed draft gives a well-formed draft.
pub set_at-WellFormed :
    (d : Json) (path : Text) (next : Json) {d' : Json}
    → WellFormed d
    → WellFormed next
    → set_at d path next ≡ some d'
    → WellFormed d'
unfolding set_at
set_at-WellFormed d path next w wn e = set_in-WellFormed (some d) (split_dot path) next e w wn
