-- ===== src/Equality/Numerals.antt =====
-- The numbers that decimal notation stands for, and when two of them are the same: a description of the
-- equality of numbers that does not depend on `jsonNumberRat` of json/patch.go.
use roundtrip.Base.{
  [], ℕ, ◌+◌, ◌*◌, ◌^◌, ◌<◌, ◌≡◌, Text, ◌∷◌, ◌++◌, Bool, true, false, not, ◌&&◌, ◌||◌, ◌==◌,
  if◌then◌else◌, Option, none, some, length, text_eq,
}
use roundtrip.Chars.{ascii_digit}
use roundtrip.Pointer.Positional.{decimal_value}
use roundtrip.Pointer.{on_some}

-- `mantissa * 10 ^ up / 10 ^ down`, with a sign
pub record Decimal : Type 0 where
  pub is_minus : Bool
  pub mantissa : ℕ
  pub up : ℕ
  pub down : ℕ

-- the digits at the start of a text, and what is behind them
abbrev pub digit_before : ℕ → Text → Text × Text → Text × Text
digit_before c s (w, r) = if ascii_digit c then (c ∷ w, r) else ([], c ∷ s)

abbrev pub leading_digits : Text → Text × Text
leading_digits [] = ([], [])
leading_digits (c ∷ s) = digit_before c s (leading_digits s)

-- the value of a text of digits that is not empty
abbrev pub digits_number : Text → Option ℕ
digits_number [] = none
digits_number (c ∷ s) = decimal_value (c ∷ s)

abbrev pub with_sign : Bool → Option ℕ → Option (Bool × ℕ)
with_sign m none = none
with_sign m (some k) = some (m, k)

-- the digits of an exponent with a sign, if there is one
abbrev pub exponent_of : Text → Option (Bool × ℕ)
exponent_of [] = none
exponent_of (c ∷ s) =
    if c == b'-'
    then with_sign true (digits_number s)
    else if c == b'+'
    then with_sign false (digits_number s)
    else with_sign false (digits_number (c ∷ s))

-- the exponent at the end of a number, zero if none is written
abbrev pub power : Text → Option (Bool × ℕ)
power [] = some (false, 0)
power (c ∷ s) = if c == b'e' || c == b'E' then exponent_of s else none

-- a whole number of digits, the last `scale` of them behind the point, times a power of ten
abbrev pub decimal : Bool → ℕ → Bool × ℕ → ℕ → Decimal
decimal m scale (true, k) n = record { is_minus = m; mantissa = n; up = 0; down = scale + k }
decimal m scale (false, k) n = record { is_minus = m; mantissa = n; up = k; down = scale }

abbrev pub with_power : Bool → Text → Text → Option (Bool × ℕ) → Option Decimal
with_power m w f none = none
with_power m w f (some p) = on_some (decimal m (length f) p) (digits_number (w ++ f))

abbrev pub behind_point : Bool → Text → Text × Text → Option Decimal
behind_point m w (f, q) = with_power m w f (power q)

abbrev pub behind_whole : Bool → Text × Text → Option Decimal
behind_whole m (w, []) = with_power m w [] (power [])
behind_whole m (w, c ∷ r) =
    if c == b'.' then behind_point m w (leading_digits r) else with_power m w [] (power (c ∷ r))

abbrev pub unsigned_decimal : Bool → Text → Option Decimal
unsigned_decimal m s = behind_whole m (leading_digits s)

-- The number in decimal notation: a sign, if there is one, digits, if there is one a point with digits
-- behind it, and if there is one an exponent; `none` for any other text.
abbrev pub decimal_of : Text → Option Decimal
decimal_of [] = none
decimal_of (c ∷ s) =
    if c == b'-'
    then unsigned_decimal true s
    else if c == b'+'
    then unsigned_decimal false s
    else unsigned_decimal false (c ∷ s)

-- the equality of two fractions with their signs; zero has no sign
abbrev pub decimals_equal : Decimal → Decimal → Bool
decimals_equal a b =
    let same = a.mantissa * 10 ^ a.up * 10 ^ b.down == b.mantissa * 10 ^ b.up * 10 ^ a.down in
    if a.mantissa == 0
    then b.mantissa == 0
    else (if a.is_minus then b.is_minus else not b.is_minus) && same

abbrev pub equal_by : Text → Text → Option Decimal → Option Decimal → Bool
equal_by s t (some a) (some b) = decimals_equal a b
equal_by s t _ _ = text_eq s t

-- numbers in decimal notation by what they denote, all others by their texts
abbrev pub number_equal : Text → Text → Bool
number_equal s t = equal_by s t (decimal_of s) (decimal_of t)

-- a word, or hexadecimal digits
abbrev pub word_start : Text → Bool
word_start [] = false
word_start (c ∷ []) = c == b'I' || c == b'N'
word_start (c ∷ d ∷ s) = c == b'I' || c == b'N' || ((c == b'0') && (d == b'x' || d == b'X'))

abbrev pub is_word : Text → Bool
is_word [] = false
is_word (c ∷ s) = if c == b'-' || c == b'+' then word_start s else word_start (c ∷ s)

-- the numbers whose exponents an `int` of 64 bits can hold, and the words
pub data Plain (s : Text) : Type 0 where
  notation : (d : Decimal) → decimal_of s ≡ some d → d.up + d.down < 2 ^ 63 → Plain s
  word : is_word s ≡ true → Plain s
