-- ===== src/Json/Keys.antt =====
-- Own properties: reading after writing, and counting distinct keys.
use anthonyzng_web.Base.{
  suc, ◌≤◌, ◌≡◌, refl, ◌≢◌, ◌∙◌, sym, none, some, inl, inr, arith, if◌then◌else◌,
}
use anthonyzng_web.Base.Text.{Text, text_eq}
use anthonyzng_web.Base.Text.Laws.{text_eq_refl, text_eq-cases, text_eq_iff, text_eq_ne}
use anthonyzng_web.Json.{Json, Members, end, member, count_members, find, put, Distinct}

-- A write is seen under its own key, and under no other.
pub find-put :
    (j k : Text) (v : Json) (ms : Members)
    → find j (put k v ms) ≡ (if text_eq k j then some v else find j ms)
unfolding find put
find-put j k v end = refl
find-put j k v (member i w ms) =
    ground (arith, text_eq_iff i k, text_eq_iff i j, text_eq_iff k j, find-put j k v ms)

pub find-put_self : (k : Text) (v : Json) (ms : Members) → find k (put k v ms) ≡ some v
find-put_self k v ms = find-put k k v ms ∙ rw (text_eq_refl k)

pub find-put_ne : (j k : Text) (v : Json) (ms : Members) → k ≢ j → find j (put k v ms) ≡ find j ms
find-put_ne j k v ms h = find-put j k v ms ∙ rw (text_eq_ne h)

-- Every key of `l` is a key of `r`.
abbrev pub KeysIn : Members → Members → Type 0
KeysIn end r = Unit
KeysIn (member k _ l) r = (find k r ≢ none) × KeysIn l r

remove : Text → Members → Members
remove key end = end
remove key (member k v ms) = if text_eq k key then ms else member k v (remove key ms)

find-remove_ne : (j k : Text) (ms : Members) → k ≢ j → find j (remove k ms) ≡ find j ms
unfolding find remove
find-remove_ne j k end h = refl
find-remove_ne j k (member i w ms) h =
    ground (arith, text_eq_iff i k, text_eq_iff i j, find-remove_ne j k ms h)

count-remove :
    (k : Text) (ms : Members)
    → find k ms ≢ none
    → suc (count_members (remove k ms)) ≡ count_members ms
unfolding find remove
count-remove k end h = absurd (h refl)
count-remove k (member i w ms) h = ground (arith, count-remove k ms)

KeysIn-remove : (k : Text) (l r : Members) → find k l ≡ none → KeysIn l r → KeysIn l (remove k r)
unfolding find
KeysIn-remove k end r h s = tt
KeysIn-remove k (member i w l) r h (p, s) = elim (text_eq-cases i k) [
  | inl (_, e) ↦ absurd (ground arith)
  | inr (n, e) ↦ (
    λ q. p (sym (find-remove_ne i k r (λ e'. n (sym e'))) ∙ q),
    KeysIn-remove k l r (rw e at h) s,
  )
]

-- Distinct keys that are all keys of `r` are at most as many.
count-le_of_KeysIn : (l r : Members) → Distinct l → KeysIn l r → count_members l ≤ count_members r
unfolding Distinct
count-le_of_KeysIn end r d s = omega arith
count-le_of_KeysIn (member k v l) r (fresh, _, d) (p, s) =
    omega
      (arith, count-le_of_KeysIn l (remove k r) d (KeysIn-remove k l r fresh s), count-remove k r p)

-- With as many keys on both sides, inclusion goes both ways.
pub find-ne-none_of_KeysIn :
    (k : Text) (l r : Members)
    → Distinct l
    → KeysIn l r
    → count_members l ≡ count_members r
    → find k r ≢ none
    → find k l ≢ none
find-ne-none_of_KeysIn k l r d s n p q = absurd (
    omega
      (arith, count-le_of_KeysIn l (remove k r) d (KeysIn-remove k l r q s), count-remove k r p))
