-- ===== src/Base/Dict.antt =====
-- JavaScript records with text keys, as association lists in insertion order, and sets of texts.
use anthonyzng_web.Base.{
  ◌≡◌, refl, ◌≢◌, ◌∙◌, inl, inr, Bool, true, false, ◌||◌, Option, none, some, List, [], ◌∷◌, ◌++◌,
  arith, if◌then◌else◌, All,
}
use anthonyzng_web.Base.Text.{Text, text_eq}
use anthonyzng_web.Base.Text.Laws.{text_eq_iff, text_eq_refl, text_eq-cases}

module _ {ℓ} {V : Type ℓ} where
  unfoldable pub lookup : Text → List (Text × V) → Option V
  lookup key [] = none
  lookup key ((k, v) ∷ d) = if text_eq k key then some v else lookup key d

  -- `record[key] = value`
  unfoldable pub insert : Text → V → List (Text × V) → List (Text × V)
  insert key v [] = (key, v) ∷ []
  insert key v ((k, w) ∷ d) = if text_eq k key then (key, v) ∷ d else (k, w) ∷ insert key v d

  -- `record[key] ??= value`
  unfoldable pub insert_new : Text → V → List (Text × V) → List (Text × V)
  insert_new key v [] = (key, v) ∷ []
  insert_new key v ((k, w) ∷ d) = if text_eq k key then (k, w) ∷ d else (k, w) ∷ insert_new key v d

  abbrev pub keys : List (Text × V) → List Text
  keys [] = []
  keys ((k, _) ∷ d) = k ∷ keys d

  pub lookup-insert :
      (k j : Text) (v : V) (d : List (Text × V))
      → lookup j (insert k v d) ≡ (if text_eq k j then some v else lookup j d)
  unfolding lookup insert
  lookup-insert k j v [] = refl
  lookup-insert k j v ((i, w) ∷ d) =
      ground (arith, text_eq_iff k j, text_eq_iff i k, text_eq_iff i j, lookup-insert k j v d)

  pub lookup-insert_self :
      (k : Text) (v : V) (d : List (Text × V)) → lookup k (insert k v d) ≡ some v
  lookup-insert_self k v d = lookup-insert k k v d ∙ rw (text_eq_refl k)

  pub insert-ne-nil : (k : Text) (v : V) (d : List (Text × V)) → insert k v d ≢ []
  unfolding insert
  insert-ne-nil k v [] = cc
  insert-ne-nil k v ((i, w) ∷ d) = ground arith

  pub lookup-insert_new :
      (k j : Text) (v : V) (d : List (Text × V))
      → lookup j (insert_new k v d) ≡ (
          if text_eq k j then elim (lookup j d) [ none ↦ some v | some w ↦ some w ] else lookup j d)
  unfolding lookup insert_new
  lookup-insert_new k j v [] = ground arith
  lookup-insert_new k j v ((i, w) ∷ d) =
      ground (arith, text_eq_iff k j, text_eq_iff i k, text_eq_iff i j, lookup-insert_new k j v d)

  -- An entry that is there is kept.
  pub lookup-insert_new-kept :
      (k j : Text) (v : V) (d : List (Text × V)) {w : V}
      → lookup j d ≡ some w
      → lookup j (insert_new k v d) ≡ some w
  lookup-insert_new-kept k j v d e = lookup-insert_new k j v d ∙ ground arith

  pub lookup-insert_new-none :
      (k j : Text) (v : V) (d : List (Text × V))
      → lookup j d ≡ none
      → lookup j (insert_new k v d) ≡ (if text_eq k j then some v else none)
  lookup-insert_new-none k j v d e = lookup-insert_new k j v d ∙ ground arith

  -- A property of the keys survives the entry of a key that has it.
  pub All-keys-insert :
      (P : Text → Type 0) (k : Text) (v : V) (d : List (Text × V))
      → P k
      → All P (keys d)
      → All P (keys (insert k v d))
  unfolding insert
  All-keys-insert P k v [] p h = (p, tt)
  All-keys-insert P k v ((i, w) ∷ d) p (q, h) = elim (text_eq-cases i k) [
    | inl (_, t) ↦ rw t (p, h)
    | inr (_, t) ↦ rw t (q, All-keys-insert P k v d p h)
  ]

  pub All-keys-insert_new :
      (P : Text → Type 0) (k : Text) (v : V) (d : List (Text × V))
      → P k
      → All P (keys d)
      → All P (keys (insert_new k v d))
  unfolding insert_new
  All-keys-insert_new P k v [] p h = (p, tt)
  All-keys-insert_new P k v ((i, w) ∷ d) p (q, h) = elim (text_eq-cases i k) [
    | inl (_, t) ↦ rw t (q, h)
    | inr (_, t) ↦ rw t (q, All-keys-insert_new P k v d p h)
  ]

-- `set.has(key)`, and `list.includes(key)`
unfoldable pub has : Text → List Text → Bool
has key [] = false
has key (k ∷ ks) = text_eq k key || has key ks

abbrev pub IsIn : Text → List Text → Type 0
IsIn key ks = has key ks ≡ true

pub has-append : (key : Text) (ks js : List Text) → has key (ks ++ js) ≡ (has key ks || has key js)
unfolding has
has-append key [] js = refl
has-append key (k ∷ ks) js = ground (arith, has-append key ks js)

pub IsIn-left : (key : Text) (ks js : List Text) → IsIn key ks → IsIn key (ks ++ js)
IsIn-left key ks js h = has-append key ks js ∙ rw h

pub IsIn-right : (key : Text) (ks js : List Text) → IsIn key js → IsIn key (ks ++ js)
IsIn-right key ks js h = has-append key ks js ∙ ground arith

pub IsIn-head : (key : Text) (ks : List Text) → IsIn key (key ∷ ks)
unfolding has
IsIn-head key ks = ground (arith, text_eq_refl key)

pub IsIn-tail : (key k : Text) (ks : List Text) → IsIn key ks → IsIn key (k ∷ ks)
unfolding has
IsIn-tail key k ks h = ground arith
