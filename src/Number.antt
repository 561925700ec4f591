-- ===== src/Number.antt =====
-- The number literals of json/util.go and json/unmarshal.go. An index into the literal is the text
-- from it on; a function of a part returns the text behind it, or `none` where the source returns
-- false.
pub mod Grammar
pub mod Sound
pub mod Complete
use roundtrip.Base.{
  ℕ, zero, suc, ◌+◌, Text, codes, List, [], ◌∷◌, ◌++◌, Bool, true, false, not, ◌&&◌, ◌||◌, ◌==◌,
  ltb, if◌then◌else◌, text_eq, has_prefix, Option, none, some,
}
use roundtrip.Chars.{ascii_digit, is_hex}
use roundtrip.Syntax.{SyntaxOptions}

-- `for i < len(s) && '0' <= s[i] && s[i] <= '9' { i++ }`
unfoldable pub skip_digits : Text → Text
skip_digits [] = []
skip_digits (c ∷ s) = elim (ascii_digit c) [ true ↦ skip_digits s | false ↦ c ∷ s ]

-- at least one digit, and the digits behind it
unfoldable pub some_digits : Text → Option Text
some_digits [] = none
some_digits (c ∷ s) = if ascii_digit c then some (skip_digits s) else none

abbrev pub skip_sign : (ℕ → Bool) → Text → Text
skip_sign is_sign [] = []
skip_sign is_sign (c ∷ s) = if is_sign c then s else c ∷ s

-- the first `switch`
pub integer_part : Text → Option Text
integer_part [] = none
integer_part (c ∷ s) =
    if c == b'0' then some s else if ascii_digit c then some (skip_digits s) else none

pub fraction_part : Text → Option Text
fraction_part [] = some []
fraction_part (c ∷ s) = if c == b'.' then some_digits s else some (c ∷ s)

pub exponent_part : Text → Option Text
exponent_part [] = some []
exponent_part (c ∷ s) =
    if c == b'e' || c == b'E'
    then some_digits (skip_sign (λ x. x == b'+' || x == b'-') s)
    else some (c ∷ s)

infixl 5 ◌>>=◌
abbrev ◌>>=◌ : Option Text → (Text → Option Text) → Option Text
none >>= f = none
some a >>= f = f a

abbrev pub ends : Option Text → Bool
ends none = false
ends (some []) = true
ends (some (_ ∷ _)) = false

-- `validNumber`
unfoldable pub valid_number : Text → Bool
unfolding integer_part fraction_part exponent_part
valid_number s =
    ends (do i ← integer_part (skip_sign (λ x. x == b'-') s); f ← fraction_part i; exponent_part f)

unfoldable pub valid_ieee754_number : Text → Bool
unfolding text_eq
valid_ieee754_number s =
    text_eq s (codes "NaN")
    || text_eq s (codes "+NaN")
    || text_eq s (codes "-NaN")
    || (text_eq s (codes "Infinity")
        || text_eq s (codes "+Infinity")
        || text_eq s (codes "-Infinity"))

all_hex : Text → Bool
all_hex [] = true
all_hex (c ∷ s) = is_hex c && all_hex s

hex_body : Text → Text
hex_body [] = []
hex_body (a ∷ []) = []
hex_body (a ∷ b ∷ []) = []
hex_body (a ∷ b ∷ c ∷ s) =
    if a == b'0' && (b == b'x' || b == b'X') then (if all_hex (c ∷ s) then c ∷ s else []) else []

-- `hexNumberBody`
unfoldable pub hex_number_body : Text → Text
unfolding hex_body all_hex is_hex
hex_number_body s = hex_body (skip_sign (λ x. x == b'+' || x == b'-') s)

-- the digits at the start, counted
digit_count : Text → ℕ
digit_count [] = 0
digit_count (c ∷ s) = elim (ascii_digit c) [ true ↦ suc (digit_count s) | false ↦ 0 ]

abbrev starts_with_zero : Text → Bool
starts_with_zero [] = false
starts_with_zero (c ∷ _) = c == b'0'

-- behind the dot: `before` digits stood before it, and `body` is the literal without its sign
point_tail : ℕ → Text → Text → Bool
point_tail before body s =
    let after = digit_count s in
    if before == 0 && after == 0
    then false
    else if not (before == 0) && not (after == 0)
    then false
    else if ltb 1 before && starts_with_zero body
    then false
    else ends (exponent_part (skip_digits s))

point_at : ℕ → Text → Text → Bool
point_at before body [] = false
point_at before body (c ∷ s) = if c == b'.' then point_tail before body s else false

-- `validLeadingOrTrailingDecimalPointNumber`; `[]` behind the sign has no dot
unfoldable pub valid_point_number : Text → Bool
unfolding point_at point_tail digit_count skip_digits exponent_part some_digits
valid_point_number s =
    let body = skip_sign (λ x. x == b'+' || x == b'-') s in
    point_at (digit_count body) body (skip_digits body)

abbrev is_empty : Text → Bool
is_empty [] = true
is_empty (_ ∷ _) = false

-- `validNumberWithOptions`
unfoldable pub valid_number_with_options : Text → SyntaxOptions → Bool
valid_number_with_options s opts =
    if valid_number s
    then true
    else if has_prefix s (codes "+") && not opts.leading_plus_signs
    then false
    else if opts.ieee754_numbers && valid_ieee754_number s
    then true
    else if opts.hexadecimal_numbers && not (is_empty (hex_number_body s))
    then true
    else if opts.leading_plus_signs
        && has_prefix s (codes "+")
        && valid_number (skip_sign (λ x. x == b'+') s)
    then true
    else opts.leading_or_trailing_decimal_points && valid_point_number s
