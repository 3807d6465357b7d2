-- ===== src/Draft/Index.antt =====
-- `Number(segment)` of frontend/src/admin/draft.ts as the index of an array element: decimal digits, an exponent,
-- a sign, the radix prefixes and white space, with the rounding to a double. A segment of a dotted path has no
-- dot. `none` is a number that is no index: no number at all, a fraction, a negative one or an infinite one.
use anthonyzng_web.Base.{
  ℕ, zero, suc, ◌+◌, ◌-◌, ◌*◌, ◌/◌, ◌^◌, Bool, true, false, ◌&&◌, ◌||◌, Option, none, some, [], ◌∷◌,
  if◌then◌else◌, all, ltb, leb, ◌==◌,
}
use anthonyzng_web.Base.Text.{Text, trim, is_digit, digits_value}

-- The digits before the rest
abbrev digits_of : Text → Text
digits_of [] = []
digits_of (c ∷ s) = let rest = digits_of s in if is_digit c then c ∷ rest else []

abbrev behind_digits : Text → Text
behind_digits [] = []
behind_digits (c ∷ s) = let rest = behind_digits s in if is_digit c then rest else c ∷ s

-- The value of a digit of a radix up to 16
abbrev digit_value : ℕ → ℕ
digit_value c =
    if is_digit c
    then c - b'0'
    else if leb b'a' c && leb c b'f'
    then c - b'a' + 10
    else if leb b'A' c && leb c b'F'
    then c - b'A' + 10
    else 16

abbrev radix_from : (radix value : ℕ) → Text → Option ℕ
radix_from radix value [] = some value
radix_from radix value (c ∷ s) =
    let rest = radix_from radix (value * radix + digit_value c) s in
    if ltb (digit_value c) radix then rest else none

abbrev radix_number : ℕ → Text → Option ℕ
radix_number radix [] = none
radix_number radix (c ∷ s) = radix_from radix 0 (c ∷ s)

-- The greatest power of two that is not above `i`, from the power `p`, on fuel for an index below 2 ^ 32
abbrev power_below : (fuel p i : ℕ) → ℕ
power_below zero p i = p
power_below (suc fuel) p i =
    let rest = power_below fuel (2 * p) i in if ltb i (2 * p) then p else rest

-- Whether `p / q` is the integer `i` as a double: at most half a step away, and the step below a power of two
-- is half the step above it.
abbrev rounds_to : (p q i power : ℕ) → Bool
rounds_to p q i power =
    if i == 0
    then leb (p * 2 ^ 1075) q
    else if leb (i * q) p
    then leb ((p - i * q) * 2 ^ 53) (q * power)
    else leb ((i * q - p) * 2 ^ (if i == power then 54 else 53)) (q * power)

abbrev index_if : Bool → ℕ → Option ℕ
index_if true i = some i
index_if false i = none

-- The index that `p / q` is as a double: the nearest integer, if it rounds to it
unfoldable pub ratio_index : (p q : ℕ) → Option ℕ
ratio_index p q =
    let i = (2 * p + q) / (2 * q) in
    index_if (ltb i 4294967295 && rounds_to p q i (power_below 32 1 i)) i

abbrev scaled : Bool → (digits exponent : Text) → Option ℕ
scaled negative digits [] = none
scaled true digits (c ∷ s) = ratio_index (digits_value 0 digits) (10 ^ digits_value 0 (c ∷ s))
scaled false digits (c ∷ s) = ratio_index (digits_value 0 digits * 10 ^ digits_value 0 (c ∷ s)) 1

abbrev scaled_if : Bool → Option ℕ → Option ℕ
scaled_if true i = i
scaled_if false i = none

-- What follows the `e`
abbrev read_exponent : (digits : Text) → Text → Option ℕ
read_exponent digits [] = none
read_exponent digits (c ∷ s) =
    if c == b'-'
    then scaled_if (all is_digit s) (scaled true digits s)
    else if c == b'+'
    then scaled_if (all is_digit s) (scaled false digits s)
    else scaled_if (all is_digit (c ∷ s)) (scaled false digits (c ∷ s))

abbrev behind_mantissa : (digits rest : Text) → Option ℕ
behind_mantissa [] rest = none
behind_mantissa (d ∷ digits) [] = some (digits_value 0 (d ∷ digits))
behind_mantissa (d ∷ digits) (c ∷ s) =
    if c == b'e' || c == b'E' then read_exponent (d ∷ digits) s else none

abbrev decimal : Text → Option ℕ
decimal s = behind_mantissa (digits_of s) (behind_digits s)

-- Minus zero is the index 0.
abbrev only_zero : Option ℕ → Option ℕ
only_zero (some zero) = some 0
only_zero _ = none

abbrev signed : ℕ → Text → Option ℕ
signed c s =
    if c == b'+' then decimal s else if c == b'-' then only_zero (decimal s) else decimal (c ∷ s)

abbrev numeral : Text → Option ℕ
numeral [] = some 0
numeral (c ∷ []) = signed c []
numeral (c ∷ x ∷ s) =
    if c == b'0' && (x == b'x' || x == b'X')
    then radix_number 16 s
    else if c == b'0' && (x == b'o' || x == b'O')
    then radix_number 8 s
    else if c == b'0' && (x == b'b' || x == b'B')
    then radix_number 2 s
    else signed c (x ∷ s)

-- Decimal digits are the segments that the program writes.
unfoldable pub to_index : Text → Option ℕ
to_index w = if all is_digit w then some (digits_value 0 w) else numeral (trim w)

-- Whoever unfolds this computes with `to_index`.
unfoldable pub index_operations : Unit {0}
unfolding to_index ratio_index trim digits_value
index_operations = tt
