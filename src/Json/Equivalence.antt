-- ===== src/Json/Equivalence.antt =====
-- `isSameJson` is symmetric and transitive on well-formed values.
use anthonyzng_web.Base.{
  ◌≡◌, refl, ◌∙◌, sym, true, some, inl, inr, arith, Option-cases, and_split, and_intro, ==_iff,
}
use anthonyzng_web.Base.Text.{Text}
use anthonyzng_web.Base.Text.Laws.{text_eq-cases, text_eq_iff}
use anthonyzng_web.Json.{
  Json, null, boolean, num, str, arr, obj, Items, nil, cons, Members, end, member, count_items,
  count_members, find, is_same_json, same_items, same_members, WellFormed, AllWellFormed, Distinct,
}
use anthonyzng_web.Json.Keys.{find-ne-none_of_KeysIn}
use anthonyzng_web.Json.Same.{same_members-find, same_members→KeysIn, same_members_intro}

pub Distinct-find :
    (k : Text) (ms : Members) {v : Json} → Distinct ms → find k ms ≡ some v → WellFormed v
unfolding WellFormed find
Distinct-find k end d e = absurd (cc)
Distinct-find k (member j u ms) {v} (_, w, d) e = elim (text_eq-cases j k) [
  | inl (_, t) ↦ let held : u ≡ v = ground arith in rw (← held) w
  | inr (_, t) ↦ Distinct-find k ms d (rw t at e)
]

same_obj :
    (l r : Members)
    → count_members l ≡ count_members r
    → same_members l r ≡ true
    → is_same_json (obj l) (obj r) ≡ true
unfolding is_same_json
same_obj l r n h = and_intro ((==_iff _ _).1 n) h

pub same_obj-inv :
    (l r : Members)
    → is_same_json (obj l) (obj r) ≡ true
    → (count_members l ≡ count_members r) × (same_members l r ≡ true)
unfolding is_same_json
same_obj-inv l r h = let (n, s) = and_split _ _ h in ((==_iff _ _).0 n, s)

pub same_arr-inv :
    (xs ys : Items)
    → is_same_json (arr xs) (arr ys) ≡ true
    → (count_items xs ≡ count_items ys) × (same_items xs ys ≡ true)
unfolding is_same_json
same_arr-inv l r h = let (n, s) = and_split _ _ h in ((==_iff _ _).0 n, s)

module _ (l r : Members) (dl : Distinct l) (n : count_members l ≡ count_members r)
    (h : same_members l r ≡ true) where
  -- What a key of the right object has on the left.
  same_members-find_back :
      (k : Text) {w : Json}
      → find k r ≡ some w
      → (v : Json) × (find k l ≡ some v) × (is_same_json v w ≡ true)
  same_members-find_back k {w} e = elim (Option-cases (find k l)) [
    | inl missing ↦
        absurd (find-ne-none_of_KeysIn k l r dl (same_members→KeysIn l r h) n (λ e'. cc) missing)
    | inr (v, found) ↦
        let (w', e', s) = same_members-find l r k h found in
        let held : w' ≡ w = ground arith in (v, found, rw (← held) s)
  ]

mutual
  unfolding find is_same_json WellFormed

  same_symm :
      (a b : Json) → WellFormed a → WellFormed b → is_same_json a b ≡ true → is_same_json b a ≡ true
  same_symm null null wa wb h = h
  same_symm (boolean x) (boolean y) wa wb h = ground arith
  same_symm (num x) (num y) wa wb h = ground arith
  same_symm (str s) (str t) wa wb h = (text_eq_iff t s).1 (sym ((text_eq_iff s t).0 h))
  same_symm (arr xs) (arr ys) wa wb h =
      let (n, s) = same_arr-inv xs ys h in
      and_intro ((==_iff _ _).1 (sym n)) (same_items_symm xs ys n wa wb s)
  same_symm (obj l) (obj r) wa wb h =
      let (n, s) = same_obj-inv l r h in
      same_obj r l (sym n) (
        same_members_intro r l wb (λ k w e.
          let (v, found, hv) = same_members-find_back l r wa n s k e in
          (v, found, same_find_symm l k v w wa found (Distinct-find k r wb e) hv)))
  same_symm _ _ wa wb h = absurd (cc)

  same_items_symm :
      (xs ys : Items)
      → count_items xs ≡ count_items ys
      → AllWellFormed xs
      → AllWellFormed ys
      → same_items xs ys ≡ true
      → same_items ys xs ≡ true
  same_items_symm nil nil n wx wy h = refl
  same_items_symm nil (cons y ys) n wx wy h = absurd (omega arith)
  same_items_symm (cons x xs) nil n wx wy h = absurd (omega arith)
  same_items_symm (cons x xs) (cons y ys) n (w, wx) (w', wy) h =
      let (p, q) = and_split _ _ h in
      and_intro (same_symm x y w w' p) (same_items_symm xs ys (omega arith) wx wy q)

  same_find_symm :
      (l : Members) (k : Text) (v w : Json)
      → Distinct l
      → find k l ≡ some v
      → WellFormed w
      → is_same_json v w ≡ true
      → is_same_json w v ≡ true
  same_find_symm end k v w d e ww h = absurd (cc)
  same_find_symm (member j u l) k v w (_, wu, d) e ww h = elim (text_eq-cases j k) [
    | inl (_, t) ↦
        let held : u ≡ v = ground arith in rw (← held) (same_symm u w wu ww (rw (← held) at h))
    | inr (_, t) ↦ same_find_symm l k v w d (rw t at e) ww h
  ]

-- If one well-formed value is the same content as another, the other is the same as the one.
pub is_same_json_symm :
    (a b : Json) → WellFormed a → WellFormed b → is_same_json a b ≡ true → is_same_json b a ≡ true
is_same_json_symm a b wa wb h = same_symm a b wa wb h

mutual
  unfolding find is_same_json WellFormed

  same_trans :
      (a b c : Json)
      → WellFormed a
      → is_same_json a b ≡ true
      → is_same_json b c ≡ true
      → is_same_json a c ≡ true
  same_trans null null null wa h h' = h
  same_trans (boolean x) (boolean y) (boolean z) wa h h' = ground arith
  same_trans (num x) (num y) (num z) wa h h' = ground arith
  same_trans (str s) (str t) (str u) wa h h' =
      (text_eq_iff s u).1 ((text_eq_iff s t).0 h ∙ (text_eq_iff t u).0 h')
  same_trans (arr xs) (arr ys) (arr zs) wa h h' =
      let (n, s) = same_arr-inv xs ys h in
      let (n', s') = same_arr-inv ys zs h' in
      and_intro ((==_iff _ _).1 (n ∙ n')) (same_items_trans xs ys zs wa s s')
  same_trans (obj l) (obj m) (obj r) wa h h' =
      let (n, s) = same_obj-inv l m h in
      let (n', s') = same_obj-inv m r h' in
      same_obj l r (n ∙ n') (
        same_members_intro l r wa (λ k v e.
          let (w, found, p) = same_members-find l m k s e in
          let (z, found', q) = same_members-find m r k s' found in
          (z, found', same_find_trans l k v w z wa e p q)))
  same_trans _ _ _ wa h h' = absurd (cc)

  same_items_trans :
      (xs ys zs : Items)
      → AllWellFormed xs
      → same_items xs ys ≡ true
      → same_items ys zs ≡ true
      → same_items xs zs ≡ true
  same_items_trans nil ys zs wx h h' = refl
  same_items_trans (cons x xs) (cons y ys) (cons z zs) (w, wx) h h' =
      let (p, q) = and_split _ _ h in
      let (p', q') = and_split _ _ h' in
      and_intro (same_trans x y z w p p') (same_items_trans xs ys zs wx q q')
  same_items_trans (cons _ _) _ _ wx h h' = absurd (cc)

  same_find_trans :
      (l : Members) (k : Text) (v w z : Json)
      → Distinct l
      → find k l ≡ some v
      → is_same_json v w ≡ true
      → is_same_json w z ≡ true
      → is_same_json v z ≡ true
  same_find_trans end k v w z d e h h' = absurd (cc)
  same_find_trans (member j u l) k v w z (_, wu, d) e h h' = elim (text_eq-cases j k) [
    | inl (_, t) ↦
        let held : u ≡ v = ground arith in rw (← held) (same_trans u w z wu (rw (← held) at h) h')
    | inr (_, t) ↦ same_find_trans l k v w z d (rw t at e) h h'
  ]

-- Being the same content passes on from a well-formed value through any second one to a third.
pub is_same_json_trans :
    (a b c : Json)
    → WellFormed a
    → is_same_json a b ≡ true
    → is_same_json b c ≡ true
    → is_same_json a c ≡ true
is_same_json_trans a b c wa h h' = same_trans a b c wa h h'
