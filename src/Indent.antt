-- ===== src/Indent.antt =====
-- json/format.go: `Indent`, on the tokens of the document. A depth is the number of opening
-- delimiters and the number of closing ones, since the source's difference may be negative.
pub mod Spread
pub mod Trailing
use roundtrip.Base.{
  ℕ, zero, suc, ◌+◌, ◌-◌, Text, codes, List, [], ◌∷◌, ◌++◌, Bool, true, false, not, ◌&&◌, ◌||◌,
  Option, none, some, ◌==◌, if◌then◌else◌, ltb, has_prefix,
}
use roundtrip.Chars.{Unicode}
use roundtrip.Decoder.{Result, ok, panic}
use roundtrip.Document.{Meta, decoder_with, decode_meta}
use roundtrip.Lexer.{Input, runes}
use roundtrip.Syntax.{SyntaxOptions}
use roundtrip.TokenList.{values}
use roundtrip.Token.{
  TokenType, eof, colon, comma, delim, whitespace, newline, comment, Token, is_open_delim,
  is_close_delim,
}

abbrev pub is_skipped : TokenType → Bool
is_skipped whitespace = true
is_skipped newline = true
is_skipped eof = true
is_skipped _ = false

-- `formatTokens`
abbrev pub format_tokens : List Token → List Token
format_tokens [] = []
format_tokens (t ∷ ts) = if is_skipped t.type then format_tokens ts else t ∷ format_tokens ts

abbrev pub depth_step : Token → ℕ × ℕ → ℕ × ℕ
depth_step t (opens, closes) =
    if is_open_delim t
    then (opens + 1, closes)
    else if is_close_delim t
    then (opens, closes + 1)
    else (opens, closes)

-- `strings.Repeat`
abbrev pub repeat : Text → ℕ → Text
repeat s zero = []
repeat s (suc n) = s ++ repeat s n

abbrev pub is_comment_token : Option Token → Bool
is_comment_token none = false
is_comment_token (some t) = elim t.type [ comment ↦ true | _ ↦ false ]

-- a token is there, and it is not a closing delimiter
abbrev pub goes_on : Option Token → Bool
goes_on none = false
goes_on (some t) = not (is_close_delim t)

abbrev pub closes_next : Option Token → Bool
closes_next none = false
closes_next (some t) = is_close_delim t

-- a token is there, and it is not an opening delimiter
abbrev pub not_open : Option Token → Bool
not_open none = false
not_open (some t) = not (is_open_delim t)

abbrev pub head_of : List Token → Option Token
head_of [] = none
head_of (t ∷ ts) = some t

-- Texts, with `none` for the panic of a negative repetition.
abbrev pub append_to : Text → Option Text → Option Text
append_to a none = none
append_to a (some b) = some (a ++ b)

abbrev pub before_text : Option Text → Text → Option Text
before_text none b = none
before_text (some a) b = some (a ++ b)

abbrev pub append_both : Option Text → Option Text → Option Text
append_both none b = none
append_both (some a) b = append_to a b

module _ (prefix indent : Text) where
  -- `writeIndentNewline`
  unfoldable pub write_indent_newline : ℕ × ℕ → Option Text
  write_indent_newline (opens, closes) =
      if ltb opens closes then none else some (b'\n' ∷ prefix ++ repeat indent (opens - closes))

  -- the `switch` of `IndentWithOptions`: the token before, the depth, the token, the one behind it
  unfoldable pub indent_token :
      Option Token → ℕ × ℕ → TokenType → Token → Option Token → Option Text
  indent_token prev (opens, closes) delim t next =
      let deeper = append_to t.literal (write_indent_newline (opens + 1, closes)) in
      let shallower = before_text (write_indent_newline (opens, closes + 1)) t.literal in
      if is_open_delim t
      then (if goes_on next then deeper else some t.literal)
      else if is_close_delim t
      then (if not_open prev then shallower else some t.literal)
      else some t.literal
  indent_token prev depth colon t next = some (codes ": ")
  indent_token prev depth comma t next =
      if is_comment_token next
      then some (codes ", ")
      else if closes_next next
      then some (codes ",")
      else append_to (codes ",") (write_indent_newline depth)
  indent_token prev depth comment t next =
      if has_prefix t.literal (codes "//")
      then append_to t.literal (write_indent_newline depth)
      else some t.literal
  indent_token prev depth _ t next = some t.literal

  -- the loop; `formatDepth` counts the tokens before, and the loop carries its count on
  unfoldable pub indent_tokens : Option Token → ℕ × ℕ → List Token → Option Text
  indent_tokens prev depth [] = some []
  indent_tokens prev depth (t ∷ ts) =
      append_both (indent_token prev depth t.type t (head_of ts))
        (indent_tokens (some t) (depth_step t depth) ts)

abbrev pub is_json_space : ℕ → Bool
is_json_space c = c == b' ' || c == 9 || c == b'\r' || c == b'\n'

-- `src[i:]` behind the last byte that is no space, and whether there is one
trailing : Text → Bool × Text
trailing [] = (false, [])
trailing (c ∷ s) =
    let (found, rest) = trailing s in
    if found then (true, rest) else if is_json_space c then (false, c ∷ rest) else (true, rest)

-- `trailingJSONSpace`
pub trailing_json_space : Text → Text
trailing_json_space s = (trailing s).1

pub data Formatted : Type 0 where
  formatted : Text → Formatted
  rejected : Formatted
  panicked : Formatted

abbrev with_trailing : Text → Option Text → Formatted
with_trailing space none = panicked
with_trailing space (some s) = formatted (s ++ space)

abbrev format_result : Text → Text → Text → Result Meta → Formatted
format_result src prefix indent (ok m d) =
    with_trailing (trailing_json_space src)
      (indent_tokens prefix indent none (0, 0) (format_tokens (values m.tokens.elems)))
format_result src prefix indent panic = panicked
format_result src prefix indent _ = rejected

-- `IndentWithOptions`
abbrev pub indent_with_options : Unicode → Input → Text → Text → SyntaxOptions → Formatted
indent_with_options u input prefix indent opts =
    format_result (runes input) prefix indent (decode_meta u true (decoder_with input opts))
