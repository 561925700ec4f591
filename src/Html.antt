-- ===== src/Html.antt =====
-- json/format.go: `HTMLEscape`, on bytes.
pub mod Clean
use roundtrip.Base.{
  ℕ, zero, suc, ◌/◌, ◌%◌, Text, codes, [], ◌∷◌, ◌++◌, Bool, true, false, ◌&&◌, ◌||◌, ◌==◌,
  if◌then◌else◌,
}
use roundtrip.Quote.{hex_digit}

abbrev pub is_html : ℕ → Bool
is_html c = c == b'<' || c == b'>' || c == b'&'

-- `hex[c>>4], hex[c&0xf]` behind `\u00`
abbrev pub escape_byte : ℕ → Text
escape_byte c = codes "\\u00" ++ hex_digit (c / 16) ∷ hex_digit (c % 16) ∷ []

-- `src[i+2]&^1 == 0xa8`
abbrev pub is_separator_end : ℕ → Bool
is_separator_end c = c / 2 == 84

-- the last byte of U+2028 and U+2029, behind the byte 0xe2
abbrev pub is_line_separator : Text → Bool
is_line_separator (x ∷ y ∷ s) = x == 128 && is_separator_end y
is_line_separator _ = false

abbrev pub escape_separator : Text → Text
escape_separator (x ∷ y ∷ s) = codes "\\u202" ++ hex_digit (y % 16) ∷ []
escape_separator _ = []

-- the loop of `appendHTMLEscape`; the number counts the bytes before `start`
unfoldable pub html_from : ℕ → Text → Text
html_from k [] = []
html_from (suc k) (c ∷ s) = html_from k s
html_from zero (c ∷ s) =
    let rest = html_from zero s in
    let behind = html_from 2 s in
    if is_html c
    then escape_byte c ++ rest
    else if c == 226 && is_line_separator s
    then escape_separator s ++ behind
    else c ∷ rest

-- `appendHTMLEscape`
abbrev pub append_html_escape : Text → Text → Text
append_html_escape dst src = dst ++ html_from zero src
