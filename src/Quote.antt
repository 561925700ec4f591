-- ===== src/Quote.antt =====
-- String literals: `unquoteStringOptions` of json/unmarshal.go and `appendString` of json/encoder.go.
-- An index into the literal is the text between it and the closing quote.
mod Digits
pub mod RoundTrip
use roundtrip.Base.{
  ℕ, zero, suc, ◌+◌, ◌-◌, ◌*◌, ◌/◌, ◌%◌, Text, codes, List, [], ◌∷◌, ◌++◌, Bool, true, false, not,
  ◌&&◌, ◌||◌, ◌==◌, ltb, leb, if◌then◌else◌, Option, none, some, length,
}
use roundtrip.Syntax.{SyntaxOptions}

pub record StringOptions : Type 0 where
  pub allow_single_quote : Bool
  pub allow_character_escapes : Bool
  pub allow_line_continuation : Bool

abbrev pub string_options : SyntaxOptions → StringOptions
string_options syntax = record {
  allow_single_quote = syntax.single_quoted_strings;
  allow_character_escapes = syntax.string_character_escapes;
  allow_line_continuation = syntax.multiline_strings;
}

abbrev pub hex_value : ℕ → Option ℕ
hex_value c =
    if leb b'0' c && leb c b'9'
    then some (c - b'0')
    else if leb b'a' c && leb c b'f'
    then some (c - b'a' + 10)
    else if leb b'A' c && leb c b'F'
    then some (c - b'A' + 10)
    else none

-- the value of `n` hexadecimal digits on top of `r`, and the text behind them
pub hex_digits : ℕ → ℕ → Text → Option (ℕ × Text)
hex_digits zero r s = some (r, s)
hex_digits (suc n) r [] = none
hex_digits (suc n) r (c ∷ s) = elim (hex_value c) [
  | none ↦ none
  | some d ↦ hex_digits n (r * 16 + d) s
]

-- `unquoteJSONUnicodeEscape` and `unquoteJSONHexEscape`
abbrev unicode_escape : Text → Option (ℕ × Text)
unicode_escape = hex_digits 4 0

abbrev hex_escape : Text → Option (ℕ × Text)
hex_escape = hex_digits 2 0

-- `json5LineContinuation`, with the text behind the continuation
line_continuation : Text → Option Text
line_continuation [] = none
line_continuation (c ∷ []) =
    if c == b'\n' || c == b'\r' || c == 0x2028 || c == 0x2029 then some [] else none
line_continuation (c ∷ d ∷ s) =
    if c == b'\n'
    then some (d ∷ s)
    else if c == b'\r'
    then (if d == b'\n' then some s else some (d ∷ s))
    else if c == 0x2028 || c == 0x2029
    then some (d ∷ s)
    else none

abbrev pub rune_error : ℕ
rune_error = 0xfffd

-- `utf16.DecodeRune`, for a high surrogate `r`
abbrev decode_pair : ℕ → ℕ → ℕ
decode_pair r r2 =
    if leb 0xdc00 r2 && leb r2 0xdfff
    then (r - 0xd800) * 0x400 + (r2 - 0xdc00) + 0x10000
    else rune_error

-- what a round of the loop writes, and the text that it goes on with
abbrev pub Written : Type 0
Written = Option (Text × Text)

abbrev wrote : ℕ → Text → Written
wrote r s = some (r ∷ [], s)

-- The second half of a surrogate pair: one that does not fit is read again by itself.
pair_with : ℕ → Text → Option (ℕ × Text) → Written
pair_with r s none = none
pair_with r s (some (r2, s')) =
    let decoded = decode_pair r r2 in
    if decoded == rune_error then wrote rune_error s else wrote decoded s'

low_half : ℕ → Text → Written
low_half r (a ∷ b ∷ c ∷ d ∷ e ∷ f ∷ s) =
    if a == b'\\' && b == b'u'
    then pair_with r (a ∷ b ∷ c ∷ d ∷ e ∷ f ∷ s) (unicode_escape (c ∷ d ∷ e ∷ f ∷ s))
    else wrote rune_error (a ∷ b ∷ c ∷ d ∷ e ∷ f ∷ s)
low_half r s = wrote rune_error s

unicode_rune : Option (ℕ × Text) → Written
unicode_rune none = none
unicode_rune (some (r, s)) =
    if leb 0xd800 r && leb r 0xdbff
    then low_half r s
    else if leb 0xdc00 r && leb r 0xdfff
    then wrote rune_error s
    else wrote r s

hex_rune : Option (ℕ × Text) → Written
hex_rune none = none
hex_rune (some (r, s)) = wrote r s

-- `switch c = s[i]`
escape_char : StringOptions → ℕ → Text → Written
escape_char opts c s =
    if c == b'\"' || c == b'\\' || c == b'/'
    then wrote c s
    else if c == b'\''
    then (if not opts.allow_character_escapes then none else wrote c s)
    else if c == b'b'
    then wrote 8 s
    else if c == b'f'
    then wrote 12 s
    else if c == b'v'
    then (if not opts.allow_character_escapes then none else wrote 11 s)
    else if c == b'0'
    then (if not opts.allow_character_escapes then none else wrote 0 s)
    else if c == b'x'
    then (if not opts.allow_character_escapes then none else hex_rune (hex_escape s))
    else if c == b'n'
    then wrote 10 s
    else if c == b'r'
    then wrote 13 s
    else if c == b't'
    then wrote 9 s
    else if c == b'u'
    then unicode_rune (unicode_escape s)
    else none

escape_at : StringOptions → Text → Written
escape_at opts [] = none
escape_at opts (c ∷ s) = escape_char opts c s

continued : Option Text → Written → Written
continued (some s) w = some ([], s)
continued none w = w

-- behind a backslash
escape : StringOptions → Text → Written
escape opts s =
    if opts.allow_line_continuation
    then continued (line_continuation s) (escape_at opts s)
    else escape_at opts s

-- one round of the loop of `unquoteStringOptions`
unquote_step : StringOptions → ℕ → Text → Written
unfolding escape escape_at escape_char continued line_continuation unicode_rune hex_rune low_half
    pair_with hex_digits
unquote_step opts c s = if c == b'\\' then escape opts s else if ltb c 0x20 then none else wrote c s

-- the loop, on the runes that are left at most
unquote_loop : StringOptions → ℕ → Text → Text → Option Text
unquote_loop opts zero [] out = some out
unquote_loop opts zero (c ∷ s) out = none
unquote_loop opts (suc k) [] out = some out
unquote_loop opts (suc k) (c ∷ s) out = elim (unquote_step opts c s) [
  | none ↦ none
  | some (w, s') ↦ unquote_loop opts k s' (out ++ w)
]

-- the text before the last rune, if that is `quote`
before_last : ℕ → Text → Option Text
before_last quote [] = none
before_last quote (c ∷ []) = if c == quote then some [] else none
before_last quote (c ∷ d ∷ s) = elim (before_last quote (d ∷ s)) [
  | none ↦ none
  | some t ↦ some (c ∷ t)
]

between : ℕ → Text → Option Text
between quote [] = none
between quote (c ∷ s) = if c == quote then before_last quote s else none

unquote_body : StringOptions → Option Text → Option Text
unquote_body opts none = none
unquote_body opts (some body) = unquote_loop opts (length body) body []

or_else : Option Text → Option Text → Option Text
or_else (some s) t = some s
or_else none t = t

-- `unquoteStringOptions`
unfoldable pub unquote_string_options : Text → StringOptions → Option Text
unfolding unquote_step unquote_loop before_last between unquote_body or_else
unquote_string_options s opts =
    unquote_body opts
      (or_else (between b'\"' s) (if not opts.allow_single_quote then none else between b'\'' s))

unfoldable pub unquote_string : Text → SyntaxOptions → Option Text
unfolding unquote_string_options
unquote_string s syntax = unquote_string_options s (string_options syntax)

-- `hex[d]`
abbrev pub hex_digit : ℕ → ℕ
hex_digit d = if ltb d 10 then b'0' + d else b'a' + (d - 10)

-- `htmlSafeSet[b] || (!escapeHTML && safeSet[b])`
abbrev pub is_safe : Bool → ℕ → Bool
is_safe html b =
    leb 0x20 b
    && not (b == b'\\')
    && not (b == b'\"')
    && not (html && (b == b'<' || b == b'>' || b == b'&'))

escape_ascii : ℕ → Text
escape_ascii b =
    if b == b'\\' || b == b'\"'
    then b'\\' ∷ b ∷ []
    else if b == 8
    then codes "\\b"
    else if b == 12
    then codes "\\f"
    else if b == 10
    then codes "\\n"
    else if b == 13
    then codes "\\r"
    else if b == 9
    then codes "\\t"
    else b'\\' ∷ b'u' ∷ b'0' ∷ b'0' ∷ hex_digit (b / 16) ∷ hex_digit (b % 16) ∷ []

-- what one round of `appendString` appends for a rune, sooner or later
quote_rune : Bool → ℕ → Text
quote_rune html r =
    if ltb r 0x80
    then (if is_safe html r then r ∷ [] else escape_ascii r)
    else if r == 0x2028 || r == 0x2029
    then b'\\' ∷ b'u' ∷ b'2' ∷ b'0' ∷ b'2' ∷ hex_digit (r % 16) ∷ []
    else r ∷ []

-- what `utf8.DecodeRuneInString` finds at an index: a rune, or a byte that starts no UTF-8 sequence
pub data Piece : Type 0 where
  rune : ℕ → Piece
  invalid_byte : Piece

quote_piece : Bool → Piece → Text
quote_piece html (rune r) = quote_rune html r
quote_piece html invalid_byte = codes "\\ufffd"

quote_runes : Bool → List Piece → Text
quote_runes html [] = []
quote_runes html (p ∷ s) = quote_piece html p ++ quote_runes html s

-- `appendString` to an empty buffer
unfoldable pub append_string : List Piece → Bool → Text
unfolding quote_runes quote_piece quote_rune escape_ascii
append_string s html = b'\"' ∷ (quote_runes html s ++ b'\"' ∷ [])

abbrev pub pieces : Text → List Piece
pieces [] = []
pieces (r ∷ s) = rune r ∷ pieces s

-- `appendString` of valid UTF-8, which is all a text of runes stands for
abbrev pub append_text : Text → Bool → Text
append_text s html = append_string (pieces s) html
