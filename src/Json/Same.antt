-- ===== src/Json/Same.antt =====
-- `isSameJson` is an equivalence on well-formed values, and does not depend on the order of keys.
use anthonyzng_web.Base.{
  ◌≡◌, refl, true, false, none, some, inl, inr, arith, Option-cases, and_split, and_intro, ==_iff,
}
use anthonyzng_web.Base.Text.{Text}
use anthonyzng_web.Base.Text.Laws.{text_eq_refl, text_eq-cases, text_eq_iff}
use anthonyzng_web.Json.{
  Json, null, boolean, num, str, arr, obj, Items, nil, cons, Members, end, member, count_members,
  find, is_same_json, same_items, same_members, WellFormed, AllWellFormed, Distinct,
}
use anthonyzng_web.Json.Keys.{KeysIn}

-- Each property of `l` is one of `r`, with the same value.
abbrev pub Included : Members → Members → Type 0
Included end r = Unit
Included (member k v l) r = (find k r ≡ some v) × Included l r

Included-member :
    (k : Text) (v : Json) (l r : Members)
    → find k l ≡ none
    → Included l r
    → Included l (member k v r)
unfolding find
Included-member k v end r h s = tt
Included-member k v (member j w l) r h (p, s) =
    (ground (arith, text_eq_iff k j, text_eq_iff j k), Included-member k v l r (ground arith) s)

pub Included-self : (ms : Members) → Distinct ms → Included ms ms
unfolding Distinct find
Included-self end d = tt
Included-self (member k v ms) (fresh, _, d) =
    (rw text_eq_refl refl, Included-member k v ms ms fresh (Included-self ms d))

mutual
  unfolding is_same_json WellFormed

  same_refl : (v : Json) → WellFormed v → is_same_json v v ≡ true
  same_refl null w = refl
  same_refl (boolean true) w = refl
  same_refl (boolean false) w = refl
  same_refl (num n) w = ground arith
  same_refl (str s) w = text_eq_refl s
  same_refl (arr xs) w = and_intro (ground arith) (same_items_refl xs w)
  same_refl (obj ms) w = and_intro (ground arith) (same_members_refl ms ms w (Included-self ms w))

  same_items_refl : (xs : Items) → AllWellFormed xs → same_items xs xs ≡ true
  same_items_refl nil w = refl
  same_items_refl (cons x xs) (w, ws) = and_intro (same_refl x w) (same_items_refl xs ws)

  same_members_refl : (l r : Members) → Distinct l → Included l r → same_members l r ≡ true
  same_members_refl end r d s = refl
  same_members_refl (member k v l) r (_, w, d) (p, s) =
      rw p (and_intro (same_refl v w) (same_members_refl l r d s))

pub is_same_json_refl : (v : Json) → WellFormed v → is_same_json v v ≡ true
is_same_json_refl v w = same_refl v w

-- Two objects of equally many properties, where the keys of the one are distinct and the other
-- has each of its properties, are the same content, in whatever order they list them.
pub is_same_json-Included :
    (l r : Members)
    → Distinct l
    → count_members l ≡ count_members r
    → Included l r
    → is_same_json (obj l) (obj r) ≡ true
unfolding is_same_json
is_same_json-Included l r d n s = and_intro ((==_iff _ _).1 n) (same_members_refl l r d s)

-- What a match of the first property says.
pub same_members-inv :
    (k : Text) (v : Json) (l r : Members)
    → same_members (member k v l) r ≡ true
    → (w : Json) × (find k r ≡ some w) × (is_same_json v w ≡ true) × (same_members l r ≡ true)
unfolding is_same_json
same_members-inv k v l r h = elim (Option-cases (find k r)) [
  | inl e ↦ absurd (let bad : false ≡ true = rw e at h in cc)
  | inr (w, e) ↦
      let (same, later) = and_split (is_same_json v w) (same_members l r) (rw e at h) in
      (w, e, same, later)
]

-- What a key of the left object has on the right.
pub same_members-find :
    (l r : Members) (k : Text) {v : Json}
    → same_members l r ≡ true
    → find k l ≡ some v
    → (w : Json) × (find k r ≡ some w) × (is_same_json v w ≡ true)
unfolding find
same_members-find end r k h e = absurd (cc)
same_members-find (member j u l) r k {v} h e =
    let (w, found, here, later) = same_members-inv j u l r h in
    elim (text_eq-cases j k) [
      | inl (same, t) ↦ let held : u ≡ v = ground arith in (w, rw (← same) found, rw (← held) here)
      | inr (_, t) ↦ same_members-find l r k later (rw t at e)
    ]

pub same_members→KeysIn : (l r : Members) → same_members l r ≡ true → KeysIn l r
same_members→KeysIn end r h = tt
same_members→KeysIn (member k v l) r h =
    let (w, found, _, later) = same_members-inv k v l r h in
    ((λ e. cc), same_members→KeysIn l r later)

-- To match all of `l`, match each of its distinct keys.
pub same_members_intro :
    (l r : Members)
    → Distinct l
    → ((k : Text) (v : Json)
        → find k l ≡ some v
        → (w : Json) × (find k r ≡ some w) × (is_same_json v w ≡ true))
    → same_members l r ≡ true
unfolding find is_same_json WellFormed
same_members_intro end r d f = refl
same_members_intro (member k v l) r (fresh, _, d) f =
    let (w, found, here) = f k v (rw text_eq_refl refl) in
    rw found
      (and_intro here (same_members_intro l r d (λ j u e. f j u (ground (arith, text_eq_iff k j)))))
