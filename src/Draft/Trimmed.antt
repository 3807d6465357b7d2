-- ===== src/Draft/Trimmed.antt =====
-- `trimDeep`: trimming is idempotent, keeps drafts well formed, and commutes with reading a path.
use anthonyzng_web.Base.{
  ℕ, zero, suc, ◌≡◌, refl, ◌∙◌, sym, ap, ap₂, Option, none, some, inl, inr, List, [], ◌∷◌,
  Option-cases, map,
}
use mathlib.Core.Option
use anthonyzng_web.Base.Text.{Text, split_dot, trim}
use anthonyzng_web.Base.Text.Laws.{text_eq-cases}
use anthonyzng_web.Base.Text.Trim.{trim_idempotent}
use anthonyzng_web.Json.{
  Json, null, boolean, num, str, arr, obj, Items, nil, cons, Members, end, member, item_at, find,
  WellFormed, AllWellFormed, Distinct,
}
use anthonyzng_web.Draft.{
  to_index, child, walk, get_at, get_string, get_strings, as_string, strings_of, strings_in,
  trim_deep, trim_items, trim_members,
}
use anthonyzng_web.Draft.Access.{child_arr, child_arr_none, walk_cons}

mutual
  unfolding trim_deep

  trim_deep_twice : (v : Json) → trim_deep (trim_deep v) ≡ trim_deep v
  trim_deep_twice null = refl
  trim_deep_twice (boolean b) = refl
  trim_deep_twice (num n) = refl
  trim_deep_twice (str s) = ap str (trim_idempotent s)
  trim_deep_twice (arr xs) = ap arr (trim_items_twice xs)
  trim_deep_twice (obj ms) = ap obj (trim_members_twice ms)

  trim_items_twice : (xs : Items) → trim_items (trim_items xs) ≡ trim_items xs
  trim_items_twice nil = refl
  trim_items_twice (cons x xs) = ap₂ cons (trim_deep_twice x) (trim_items_twice xs)

  trim_members_twice : (ms : Members) → trim_members (trim_members ms) ≡ trim_members ms
  trim_members_twice end = refl
  trim_members_twice (member k v ms) = ap₂ (member k) (trim_deep_twice v) (trim_members_twice ms)

-- What is trimmed has nothing left to trim, at any depth.
pub trim_deep_idempotent : (v : Json) → trim_deep (trim_deep v) ≡ trim_deep v
trim_deep_idempotent v = trim_deep_twice v

pub find-trim_members :
    (k : Text) (ms : Members) → find k (trim_members ms) ≡ Option.map trim_deep (find k ms)
unfolding trim_deep find
find-trim_members k end = refl
find-trim_members k (member j v ms) = elim (text_eq-cases j k) [
  | inl (_, t) ↦ rw t
  | inr (_, t) ↦ rw t (find-trim_members k ms)
]

item_at-trim_items :
    (xs : Items) (i : ℕ) → item_at (trim_items xs) i ≡ Option.map trim_deep (item_at xs i)
unfolding trim_deep item_at
item_at-trim_items nil i = refl
item_at-trim_items (cons x xs) zero = refl
item_at-trim_items (cons x xs) (suc i) = item_at-trim_items xs i

child-trim_deep : (v : Json) (w : Text) → child (trim_deep v) w ≡ Option.map trim_deep (child v w)
unfolding trim_deep
child-trim_deep (arr xs) w = elim (Option-cases (to_index w)) [
  | inl f ↦
      child_arr_none (trim_items xs) w f ∙ ap (Option.map trim_deep) (sym (child_arr_none xs w f))
  | inr (i, f) ↦
      child_arr (trim_items xs) w i f
      ∙ item_at-trim_items xs i
      ∙ ap (Option.map trim_deep) (sym (child_arr xs w i f))
]
child-trim_deep (obj ms) w = unfold child in find-trim_members w ms
child-trim_deep null w = unfold child in refl
child-trim_deep (boolean _) w = unfold child in refl
child-trim_deep (num _) w = unfold child in refl
child-trim_deep (str _) w = unfold child in refl

walk-none : (v : Json) (w : Text) (ws : List Text) → child v w ≡ none → walk v (w ∷ ws) ≡ none
walk-none v w ws f = walk_cons v w ws ∙ rw f

walk-some :
    (v : Json) (w : Text) (ws : List Text) {u : Json}
    → child v w ≡ some u
    → walk v (w ∷ ws) ≡ walk u ws
walk-some v w ws f = walk_cons v w ws ∙ rw f

walk-trim_deep :
    (v : Json) (ws : List Text) → walk (trim_deep v) ws ≡ Option.map trim_deep (walk v ws)
walk-trim_deep v [] = unfold walk in refl
walk-trim_deep v (w ∷ ws) = elim (Option-cases (child v w)) [
  | inl f ↦
      walk_cons (trim_deep v) w ws
      ∙ rw (child-trim_deep v w, f) (ap (Option.map trim_deep) (sym (walk-none v w ws f)))
  | inr (u, f) ↦
      walk_cons (trim_deep v) w ws
      ∙ rw (child-trim_deep v w, f)
          (walk-trim_deep u ws ∙ ap (Option.map trim_deep) (sym (walk-some v w ws f)))
]

-- Reading a path of the trimmed draft is trimming what the draft has there.
pub get_at-trim_deep :
    (d : Json) (path : Text) → get_at (trim_deep d) path ≡ Option.map trim_deep (get_at d path)
unfolding get_at
get_at-trim_deep d path = walk-trim_deep d (split_dot path)

as_string-trim_deep : (v : Option Json) → as_string (Option.map trim_deep v) ≡ trim (as_string v)
unfolding trim_deep trim
as_string-trim_deep none = refl
as_string-trim_deep (some (str s)) = refl
as_string-trim_deep (some null) = refl
as_string-trim_deep (some _) = refl

-- So a string control of the payload holds the control's text, trimmed.
pub get_string-trim_deep :
    (d : Json) (path : Text) → get_string (trim_deep d) path ≡ trim (get_string d path)
unfolding get_string
get_string-trim_deep d path = rw (get_at-trim_deep d path) (as_string-trim_deep (get_at d path))

strings_of-trim_items : (xs : Items) → strings_of (trim_items xs) ≡ map trim (strings_of xs)
unfolding trim_deep
strings_of-trim_items nil = refl
strings_of-trim_items (cons x xs) =
    ap₂ (λ (s : Text) (r : List Text). s ∷ r) (as_string-trim_deep (some x))
      (strings_of-trim_items xs)

strings_in-trim_deep :
    (v : Option Json) → strings_in (Option.map trim_deep v) ≡ map trim (strings_in v)
unfolding trim_deep
strings_in-trim_deep none = refl
strings_in-trim_deep (some (arr xs)) = strings_of-trim_items xs
strings_in-trim_deep (some _) = refl

pub get_strings-trim_deep :
    (d : Json) (path : Text) → get_strings (trim_deep d) path ≡ map trim (get_strings d path)
unfolding get_strings
get_strings-trim_deep d path = rw (get_at-trim_deep d path) (strings_in-trim_deep (get_at d path))

mutual
  unfolding trim_deep WellFormed

  trim_deep_keeps : (v : Json) → WellFormed v → WellFormed (trim_deep v)
  trim_deep_keeps (arr xs) w = trim_items_keeps xs w
  trim_deep_keeps (obj ms) w = trim_members_keeps ms w
  trim_deep_keeps null w = w
  trim_deep_keeps (boolean _) w = w
  trim_deep_keeps (num _) w = w
  trim_deep_keeps (str _) w = w

  trim_items_keeps : (xs : Items) → AllWellFormed xs → AllWellFormed (trim_items xs)
  trim_items_keeps nil w = tt
  trim_items_keeps (cons x xs) (w, ws) = (trim_deep_keeps x w, trim_items_keeps xs ws)

  trim_members_keeps : (ms : Members) → Distinct ms → Distinct (trim_members ms)
  trim_members_keeps end d = tt
  trim_members_keeps (member k v ms) (fresh, w, d) =
      (find-trim_members k ms ∙ rw fresh, trim_deep_keeps v w, trim_members_keeps ms d)

pub trim_deep-WellFormed : (v : Json) → WellFormed v → WellFormed (trim_deep v)
trim_deep-WellFormed v w = trim_deep_keeps v w
