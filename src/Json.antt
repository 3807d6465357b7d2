-- ===== src/Json.antt =====
-- JSON values as the admin form and the content swap hold them (frontend/src/admin/draft.ts), and
-- `isSameJson` (frontend/src/content/isSameContent.ts).
-- A number is the bit pattern of its double, so that `Object.is` on the numbers of JSON (there is no
-- NaN) is equality. An object is the list of its own properties in insertion order; that its keys
-- are distinct is the predicate `WellFormed`.
pub mod Same
pub mod Keys
pub mod Equivalence
use anthonyzng_web.Base.{
  ℕ, zero, suc, ◌≡◌, Bool, true, false, ◌&&◌, not, Option, none, some, ◌==◌, if◌then◌else◌,
}
use anthonyzng_web.Base.Text.{Text, text_eq}

mutual
  pub data Json : Type 0 where
    null : Json
    boolean : Bool → Json
    num : ℕ → Json
    str : Text → Json
    arr : Items → Json
    obj : Members → Json

  pub data Items : Type 0 where
    nil : Items
    cons : Json → Items → Items

  pub data Members : Type 0 where
    end : Members
    member : Text → Json → Members → Members

-- `array.length`
abbrev pub count_items : Items → ℕ
count_items nil = 0
count_items (cons _ xs) = suc (count_items xs)

-- `Object.keys(object).length`
abbrev pub count_members : Members → ℕ
count_members end = 0
count_members (member _ _ ms) = suc (count_members ms)

-- `array[i]`
unfoldable pub item_at : Items → ℕ → Option Json
item_at nil _ = none
item_at (cons x _) zero = some x
item_at (cons _ xs) (suc i) = item_at xs i

-- `object[key]`, for an own property
unfoldable pub find : Text → Members → Option Json
find key end = none
find key (member k v ms) = if text_eq k key then some v else find key ms

-- `{ ...object, [key]: value }`: an old property keeps its place, a new one comes last.
unfoldable pub put : Text → Json → Members → Members
put key value end = member key value end
put key value (member k v ms) =
    if text_eq k key then member k value ms else member k v (put key value ms)

abbrev pub bool_eq : Bool → Bool → Bool
bool_eq true b = b
bool_eq false b = not b

unfoldable mutual
  pub is_same_json : Json → Json → Bool
  is_same_json null null = true
  is_same_json (boolean a) (boolean b) = bool_eq a b
  is_same_json (num a) (num b) = a == b
  is_same_json (str s) (str t) = text_eq s t
  is_same_json (arr xs) (arr ys) = count_items xs == count_items ys && same_items xs ys
  is_same_json (obj l) (obj r) = count_members l == count_members r && same_members l r
  is_same_json _ _ = false

  -- `a.every((item, index) => isSameJson(item, b[index]))`
  pub same_items : Items → Items → Bool
  same_items nil ys = true
  same_items (cons x xs) nil = false
  same_items (cons x xs) (cons y ys) = is_same_json x y && same_items xs ys

  -- `keys.every((key) => Object.hasOwn(right, key) && isSameJson(left[key], right[key]))`
  pub same_members : Members → Members → Bool
  same_members end r = true
  same_members (member k v l) r =
      elim (find k r) [ none ↦ false | some w ↦ is_same_json v w ] && same_members l r

-- Every object in the value has distinct keys, as every JavaScript object has.
unfoldable mutual
  pub WellFormed : Json → Type 0
  WellFormed (arr xs) = AllWellFormed xs
  WellFormed (obj ms) = Distinct ms
  WellFormed _ = Unit

  pub AllWellFormed : Items → Type 0
  AllWellFormed nil = Unit
  AllWellFormed (cons x xs) = WellFormed x × AllWellFormed xs

  pub Distinct : Members → Type 0
  Distinct end = Unit
  Distinct (member k v ms) = (find k ms ≡ none) × WellFormed v × Distinct ms
