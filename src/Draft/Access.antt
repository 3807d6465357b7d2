-- ===== src/Draft/Access.antt =====
-- Reading a draft after writing it (`getAt` after `setAt`).
use anthonyzng_web.Base.{
  ℕ, zero, suc, ◌≡◌, refl, ◌≢◌, ◌∙◌, sym, ap, Option, none, some, inl, inr, arith, List, [], ◌∷◌,
  ◌⊎◌, Option-cases,
}
use anthonyzng_web.Base.Text.{Text, split_dot}
use anthonyzng_web.Json.{
  Json, null, boolean, num, str, arr, obj, Items, nil, cons, end, item_at, find, put,
}
use anthonyzng_web.Json.Keys.{find-put_self, find-put_ne}
use anthonyzng_web.Draft.{to_index, child, walk, get_at, set_item, child_of, store, set_in, set_at}

item_at-set_item :
    (xs : Items) (i : ℕ) (v : Json) {ys : Items} → set_item xs i v ≡ some ys → item_at ys i ≡ some v
unfolding item_at set_item
item_at-set_item nil zero v e = ground arith
item_at-set_item nil (suc i) v e = absurd (cc)
item_at-set_item (cons x xs) zero v e = ground arith
item_at-set_item (cons x xs) (suc i) v e = elim (Option-cases (set_item xs i v)) [
  | inl f ↦ absurd (ground arith)
  | inr (zs, f) ↦ let ih = item_at-set_item xs i v f in ground arith
]

item_at-set_item_ne :
    (xs : Items) (i j : ℕ) (v : Json) {ys : Items}
    → set_item xs i v ≡ some ys
    → i ≢ j
    → item_at ys j ≡ item_at xs j
unfolding item_at set_item
item_at-set_item_ne nil zero zero v e h = absurd (h refl)
item_at-set_item_ne nil zero (suc j) v e h = ground arith
item_at-set_item_ne nil (suc i) j v e h = absurd (cc)
item_at-set_item_ne (cons x xs) zero zero v e h = absurd (h refl)
item_at-set_item_ne (cons x xs) zero (suc j) v e h = ground arith
item_at-set_item_ne (cons x xs) (suc i) zero v e h = elim (Option-cases (set_item xs i v)) [
  | inl f ↦ absurd (ground arith)
  | inr (zs, f) ↦ ground arith
]
item_at-set_item_ne (cons x xs) (suc i) (suc j) v e h = elim (Option-cases (set_item xs i v)) [
  | inl f ↦ absurd (ground arith)
  | inr (zs, f) ↦ let ih = item_at-set_item_ne xs i j v f (λ e'. h (ap suc e')) in ground arith
]

-- Two segments that name different places: other keys, and not one index in two spellings.
abbrev pub Apart : Text → Text → Type 0
Apart w x = (w ≢ x) × ((to_index w ≡ none) ⊎ (to_index w ≢ to_index x))

-- How a successful write to an array went.
pub store_arr-inv :
    (xs : Items) (w : Text) (u : Json) {d : Json}
    → store (some (arr xs)) w u ≡ some d
    → (i : ℕ) × (ys : Items) × (to_index w ≡ some i) × (set_item xs i u ≡ some ys) × (d ≡ arr ys)
unfolding store
store_arr-inv xs w u e = elim (Option-cases (to_index w)) [
  | inl f ↦ absurd (ground arith)
  | inr (i, f) ↦ elim (Option-cases (set_item xs i u)) [
    | inl g ↦ absurd (ground arith)
    | inr (ys, g) ↦ (i, ys, f, g, ground arith)
  ]
]

pub child_arr :
    (xs : Items) (w : Text) (i : ℕ) → to_index w ≡ some i → child (arr xs) w ≡ item_at xs i
unfolding child
child_arr xs w i e = rw (e, child)

pub child_arr_none : (xs : Items) (w : Text) → to_index w ≡ none → child (arr xs) w ≡ none
unfolding child
child_arr_none xs w e = rw (e, child)

child_arr_ne :
    (xs : Items) {ys : Items} (w x : Text) (i : ℕ) (u : Json)
    → to_index w ≡ some i
    → set_item xs i u ≡ some ys
    → to_index w ≢ to_index x
    → child (arr ys) x ≡ child (arr xs) x
child_arr_ne xs {ys} w x i u f g n = elim (Option-cases (to_index x)) [
  | inl e ↦ child_arr_none ys x e ∙ sym (child_arr_none xs x e)
  | inr (j, e) ↦
      child_arr ys x j e
      ∙ item_at-set_item_ne xs i j u g (λ h. n (f ∙ ap some h ∙ sym e))
      ∙ sym (child_arr xs x j e)
]

child-new :
    (w : Text) (u : Json) {d : Json} → some (obj (put w u end)) ≡ some d → child d w ≡ some u
child-new w u {d} e =
    let h : obj (put w u end) ≡ d = cc in rw (← h) (unfold child in find-put_self w u end)

child-new_ne :
    (w x : Text) (u : Json) {d : Json}
    → some (obj (put w u end)) ≡ some d
    → w ≢ x
    → child d x ≡ none
child-new_ne w x u {d} e n =
    let h : obj (put w u end) ≡ d = cc in
    rw (← h) (unfold child in (find-put_ne x w u end n ∙ unfold find in refl))

pub child-store :
    (v : Option Json) (w : Text) (u : Json) {d : Json} → store v w u ≡ some d → child d w ≡ some u
child-store (some (arr xs)) w u e =
    let (i, ys, f, g, h) = store_arr-inv xs w u e in
    rw h (child_arr ys w i f ∙ item_at-set_item xs i u g)
child-store (some (obj ms)) w u {d} e =
    let h : obj (put w u ms) ≡ d = unfold store in cc in
    rw (← h) (unfold child in find-put_self w u ms)
child-store none w u e = child-new w u (unfold store in e)
child-store (some null) w u e = child-new w u (unfold store in e)
child-store (some (boolean _)) w u e = child-new w u (unfold store in e)
child-store (some (num _)) w u e = child-new w u (unfold store in e)
child-store (some (str _)) w u e = child-new w u (unfold store in e)

child-store_ne :
    (v : Option Json) (w x : Text) (u : Json) {d : Json}
    → store v w u ≡ some d
    → Apart w x
    → child d x ≡ child_of v x
unfolding child_of child
child-store_ne (some (arr xs)) w x u {d} e (_, inl f) =
    let (i, ys, f', g, h) = store_arr-inv xs w u e in absurd (cc)
child-store_ne (some (arr xs)) w x u e (_, inr n) =
    let (i, ys, f, g, h) = store_arr-inv xs w u e in rw h (child_arr_ne xs w x i u f g n)
child-store_ne (some (obj ms)) w x u {d} e (n, _) =
    let h : obj (put w u ms) ≡ d = unfold store in cc in rw (← h) (find-put_ne x w u ms n)
child-store_ne none w x u e a = child-new_ne w x u (unfold store in e) a.0
child-store_ne (some null) w x u e a = child-new_ne w x u (unfold store in e) a.0
child-store_ne (some (boolean _)) w x u e a = child-new_ne w x u (unfold store in e) a.0
child-store_ne (some (num _)) w x u e a = child-new_ne w x u (unfold store in e) a.0
child-store_ne (some (str _)) w x u e a = child-new_ne w x u (unfold store in e) a.0

-- The paths part at some segment: neither leads through the other.
abbrev pub Diverge : List Text → List Text → Type 0
Diverge [] _ = ⊥
Diverge (_ ∷ _) [] = ⊥
Diverge (w ∷ ws) (x ∷ xs) = Apart w x ⊎ (w ≡ x) × Diverge ws xs

-- The walk from what may be undefined.
abbrev pub walk_of : Option Json → List Text → Option Json
walk_of none ws = none
walk_of (some v) ws = walk v ws

pub set_in-inv :
    (v : Option Json) (w : Text) (ws : List Text) (next : Json) {d : Json}
    → set_in v (w ∷ ws) next ≡ some d
    → (u : Json) × (set_in (child_of v w) ws next ≡ some u) × (store v w u ≡ some d)
unfolding set_in
set_in-inv v w ws next e = elim (Option-cases (set_in (child_of v w) ws next)) [
  | inl f ↦ absurd (ground arith)
  | inr (u, f) ↦ (u, f, rw f at e)
]

pub walk_cons : (v : Json) (w : Text) (ws : List Text) → walk v (w ∷ ws) ≡ walk_of (child v w) ws
unfolding walk
walk_cons v w ws = elim (Option-cases (child v w)) [
  | inl e ↦ rw (e, walk)
  | inr (u, e) ↦ rw (e, walk)
]

walk-set_in :
    (v : Option Json) (ws : List Text) (next : Json) {d : Json}
    → set_in v ws next ≡ some d
    → walk d ws ≡ some next
walk-set_in v [] next e = unfold walk set_in in cc
walk-set_in v (w ∷ ws) next {d} e =
    let (u, f, g) = set_in-inv v w ws next e in
    walk_cons d w ws ∙ rw (child-store v w u g) (walk-set_in (child_of v w) ws next f)

walk_of-cons :
    (v : Option Json) (x : Text) (xs : List Text) → walk_of v (x ∷ xs) ≡ walk_of (child_of v x) xs
unfolding child_of
walk_of-cons none x xs = refl
walk_of-cons (some v) x xs = walk_cons v x xs

walk-set_in-Diverge :
    (v : Option Json) (ws xs : List Text) (next : Json) {d : Json}
    → set_in v ws next ≡ some d
    → Diverge ws xs
    → walk d xs ≡ walk_of v xs
walk-set_in-Diverge v [] xs next e h = absurd h
walk-set_in-Diverge v (w ∷ ws) [] next e h = absurd h
walk-set_in-Diverge v (w ∷ ws) (x ∷ xs) next {d} e (inl a) =
    let (u, f, g) = set_in-inv v w ws next e in
    walk_cons d x xs ∙ rw (child-store_ne v w x u g a) (sym (walk_of-cons v x xs))
walk-set_in-Diverge v (w ∷ ws) (x ∷ xs) next {d} e (inr (same, h)) =
    let (u, f, g) = set_in-inv v w ws next e in
    walk_cons d x xs
    ∙ rw (← same, child-store v w u g)
        (walk-set_in-Diverge (child_of v w) ws xs next f h ∙ sym (walk_of-cons v w xs))

-- A successful write is read back at its path, in every draft.
pub get_at-set_at :
    (d : Json) (path : Text) (next : Json) {d' : Json}
    → set_at d path next ≡ some d'
    → get_at d' path ≡ some next
unfolding get_at set_at
get_at-set_at d path next e = walk-set_in (some d) (split_dot path) next e

-- A successful write changes nothing at a path that parts from its own.
pub get_at-set_at-Diverge :
    (d : Json) (path other : Text) (next : Json) {d' : Json}
    → set_at d path next ≡ some d'
    → Diverge (split_dot path) (split_dot other)
    → get_at d' other ≡ get_at d other
unfolding get_at set_at
get_at-set_at-Diverge d path other next e h =
    walk-set_in-Diverge (some d) (split_dot path) (split_dot other) next e h
