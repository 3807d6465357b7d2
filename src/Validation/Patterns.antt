-- ===== src/Validation/Patterns.antt =====
-- The patterns of frontend/src/admin/validation.ts and its check of a web address. `parses` stands
-- for the browser's URL parser: whether `new URL(value)` succeeds.
use anthonyzng_web.Base.{
  ℕ, Bool, true, false, not, ◌&&◌, ◌||◌, Option, none, some, [], ◌∷◌, length, all, drop, leb, ltb,
  ◌==◌, if◌then◌else◌,
}
use anthonyzng_web.Base.Text.{Text, units, is_space, is_digit, digits_value, starts_with}

-- `MONTH`
unfoldable pub is_month : Text → Bool
is_month (a ∷ b ∷ c ∷ d ∷ h ∷ m ∷ n ∷ []) =
    (is_digit a && is_digit b && is_digit c && is_digit d)
    && h == b'-'
    && (m == b'0' && leb b'1' n && leb n b'9' || m == b'1' && leb b'0' n && leb n b'2')
is_month _ = false

-- `YEAR`
unfoldable pub is_year : Text → Bool
is_year (a ∷ b ∷ c ∷ d ∷ []) = is_digit a && is_digit b && is_digit c && is_digit d
is_year _ = false

-- `LINK`
unfoldable pub is_link : Text → Bool
unfolding starts_with
is_link s =
    starts_with (units "mailto:") s
    || starts_with (units "http://") s
    || starts_with (units "https://") s

-- The characters of `[^/?#]*` at the start.
unfoldable pub up_to_path : Text → Text
up_to_path [] = []
up_to_path (c ∷ s) =
    let rest = up_to_path s in if c == b'/' || c == b'?' || c == b'#' then [] else c ∷ rest

-- `WEB_URL.exec(value)?.[1]`
unfoldable pub authority : Text → Option Text
authority s =
    if starts_with (units "http://") s
    then some (up_to_path (drop 7 s))
    else if starts_with (units "https://") s
    then some (up_to_path (drop 8 s))
    else none

-- What follows the last occurrence, if there is one.
unfoldable pub after_last : ℕ → Text → Option Text
after_last mark [] = none
after_last mark (c ∷ s) = elim (after_last mark s) [
  | none ↦ if c == mark then some s else none
  | some r ↦ some r
]

-- `authority.slice(authority.lastIndexOf('@') + 1)`
unfoldable pub host_port : Text → Text
host_port s = elim (after_last b'@' s) [ none ↦ s | some r ↦ r ]

-- What stands before and after the first occurrence, if there is one.
unfoldable pub cut_first : ℕ → Text → Option (Text × Text)
cut_first mark [] = none
cut_first mark (c ∷ s) =
    let rest = cut_first mark s in
    if c == mark then some ([], s) else elim rest [ none ↦ none | some (p, r) ↦ some (c ∷ p, r) ]

-- `HOST_FORBIDDEN`
abbrev pub is_forbidden : ℕ → Bool
is_forbidden c =
    c == b'/'
    || c == 92
    || c == b'?'
    || c == b'#'
    || c == b'@'
    || c == b'%'
    || c == b':'
    || c == b'['
    || c == b']'
    || c == b'<'
    || c == b'>'
    || c == b'^'
    || c == b'|'
    || c == 0x7f

abbrev pub is_host_char : ℕ → Bool
is_host_char c = ltb 32 c && not (is_forbidden c)

unfoldable pub is_host_name : Text → Bool
is_host_name [] = false
is_host_name (c ∷ s) = is_host_char c && all is_host_char s

unfoldable pub is_port : Text → Bool
is_port [] = true
is_port (c ∷ s) =
    (all is_digit (c ∷ s) && leb (length s) 4)
    && leb 1 (digits_value 0 (c ∷ s))
    && leb (digits_value 0 (c ∷ s)) 65535

-- What may follow the bracket of an IPv6 literal.
unfoldable pub is_port_part : Text → Bool
is_port_part [] = true
is_port_part (c ∷ s) = c == b':' && is_port s

unfoldable pub is_host_port : Text → Bool
is_host_port s =
    if starts_with (units "[") s
    then elim (cut_first b']' s) [ none ↦ false | some (_, rest) ↦ is_port_part rest ]
    else elim (cut_first b':' s) [
      | none ↦ is_host_name s
      | some (host, port) ↦ is_host_name host && is_port port
    ]

unfoldable pub has_space : Text → Bool
has_space [] = false
has_space (c ∷ s) = is_space c || has_space s

unfoldable pub is_web_url : (Text → Bool) → Text → Bool
is_web_url parses value = if has_space value then false else elim (authority value) [
  | none ↦ false
  | some a ↦ is_host_port (host_port a) && parses value
]
