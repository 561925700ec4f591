-- ===== src/Chars.antt =====
-- json/util.go: classes of runes. The tables of the package `unicode` are a parameter, with what it
-- documents of them for ASCII.
use roundtrip.Base.{
  ℕ, ◌<◌, Bool, true, false, not, ◌&&◌, ◌||◌, ◌≡◌, ◌==◌, leb, Text, [], ◌∷◌, if◌then◌else◌,
}

-- `unicode.IsSpace`, `IsLetter`, `IsNumber` and `IsDigit`
pub record Unicode : Type 0 where
  pub is_space : ℕ → Bool
  pub is_letter : ℕ → Bool
  pub is_number : ℕ → Bool
  pub is_digit : ℕ → Bool

abbrev pub ascii_digit : ℕ → Bool
ascii_digit r = leb b'0' r && leb r b'9'

abbrev pub ascii_letter : ℕ → Bool
ascii_letter r = leb b'a' r && leb r b'z' || leb b'A' r && leb r b'Z'

abbrev pub ascii_space : ℕ → Bool
ascii_space r = r == b' ' || leb 9 r && leb r 13

-- The tables on ASCII.
pub record IsUnicode (u : Unicode) : Type 0 where
  pub space_ascii : (r : ℕ) → r < 128 → u.is_space r ≡ ascii_space r
  pub letter_ascii : (r : ℕ) → r < 128 → u.is_letter r ≡ ascii_letter r
  pub number_ascii : (r : ℕ) → r < 128 → u.is_number r ≡ ascii_digit r
  pub digit_ascii : (r : ℕ) → r < 128 → u.is_digit r ≡ ascii_digit r

unfoldable pub is_newline : ℕ → Bool
is_newline r = r == b'\n' || r == b'\r' || r == 0x2028 || r == 0x2029

unfoldable pub is_strict_newline : ℕ → Bool
is_strict_newline r = r == b'\n' || r == b'\r'

unfoldable pub is_strict_horizontal_space : ℕ → Bool
is_strict_horizontal_space r = r == b' ' || r == b'\t'

unfoldable pub valid_strict_space : Text → Bool
unfolding is_strict_horizontal_space is_strict_newline
valid_strict_space [] = true
valid_strict_space (r ∷ s) =
    if not (is_strict_horizontal_space r) && not (is_strict_newline r)
    then false
    else valid_strict_space s

unfoldable pub is_hex : ℕ → Bool
is_hex r = ascii_digit r || leb b'a' r && leb r b'f' || leb b'A' r && leb r b'F'

module _ (u : Unicode) where
  unfoldable pub is_horizontal_space : ℕ → Bool
  unfolding is_newline
  is_horizontal_space r = u.is_space r && not (is_newline r)

  unfoldable pub is_number_delimiter : ℕ → Bool
  unfolding is_horizontal_space is_newline
  is_number_delimiter r =
      r == b','
      || r == b']'
      || r == b'}'
      || r == b':'
      || r == b'['
      || r == b'{'
      || r == b'/'
      || (is_horizontal_space r || is_newline r)

  abbrev identifier_start : ℕ → Bool
  identifier_start r = r == b'$' || r == b'_' || u.is_letter r

  identifier_rest : Text → Bool
  identifier_rest [] = true
  identifier_rest (r ∷ s) =
      if r == b'$' || r == b'_' || u.is_letter r || u.is_digit r then identifier_rest s else false

  -- `isJSON5Identifier`
  unfoldable pub is_json5_identifier : Text → Bool
  unfolding identifier_rest
  is_json5_identifier [] = false
  is_json5_identifier (r ∷ s) = if identifier_start r then identifier_rest s else false

-- the tables cut off after ASCII
abbrev pub ascii : Unicode
ascii = record {
  is_space = ascii_space;
  is_letter = ascii_letter;
  is_number = ascii_digit;
  is_digit = ascii_digit;
}
