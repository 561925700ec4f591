-- ===== src/Tests.antt =====
-- Concrete inputs for the theorems.
mod Paths
mod Patches
mod Values
mod Linked
mod Editing
mod Trees
use roundtrip.Base.{
  List, none, inl, inr, arith, ◌≡◌, ◌≢◌, ◌↔◌, ◌⊎◌, refl, Text, codes, [], ◌∷◌, ◌++◌, true, false,
  some, map, has_prefix, text_eq,
}
use roundtrip.Chars.{IsUnicode, ascii}
use roundtrip.Document.{new_decoder, new_jsonc_decoder, decode_meta, decode, more}
use roundtrip.Document.Preserves.{Preserved, decode_meta-Preserved}
use roundtrip.Document.Trivia.{Looked, more-Looked}
use roundtrip.Comment.{done, panic, comment_text, comment_literal_text, has_suffix, contains}
use roundtrip.Comment.RoundTrip.{comment_text-comment_literal_text}
use roundtrip.Comment.Scanned.{scan_token-comment_literal_text, slash_star_slash}
use roundtrip.Html.{append_html_escape}
use roundtrip.Html.Clean.{clean, append_html_escape-clean}
use roundtrip.Lexer.Blocks.{Scans}
use roundtrip.Lexer.Lines.{EndsLine}
use roundtrip.Lexer.{Input, lex, new_lexer, runes, next, scan_token}
use roundtrip.Number.{valid_number}
use roundtrip.Number.Grammar.{IsNumber}
use roundtrip.Number.Complete.{valid_number_iff}
use roundtrip.Indent.{trailing_json_space, indent_tokens, indent_token, write_indent_newline}
use roundtrip.Document.Stream.{Streamed, decode-Streamed}
use roundtrip.Indent.Trailing.{Longest, trailing_json_space-Longest}
use roundtrip.Indent.Spread.{Nested, Spread, indent_tokens-Spread}
use roundtrip.Pointer.{parse_json_pointer, pointer_array_index, index}
use roundtrip.Pointer.Decimal.{decimal, pointer_array_index-decimal}
use roundtrip.Pointer.Index.{pointer_array_index_prefix}
use roundtrip.Pointer.Escape.{pointer_text}
use roundtrip.Pointer.RoundTrip.{parse_json_pointer_iff}
use roundtrip.Quote.{append_string, unquote_string, pieces, invalid_byte}
use roundtrip.Quote.RoundTrip.{unquote_string-append_string}
use roundtrip.Token.Symbols.{token_string, display_name, token_string-ne-display_name}
use roundtrip.Lexer.Lossless.{NextOk, literals-lex, next-NextOk}
use roundtrip.Lexer.Positions.{Placed, lex-Placed}
use roundtrip.Syntax.{strict, json5}
use roundtrip.Token.{
  anchor, number, string, delim, comment, Token, token, literals, is_open_delim, is_close_delim,
  is_left_brace, is_left_bracket, is_right_brace, is_right_bracket,
}

pub ascii-IsUnicode : IsUnicode ascii
ascii-IsUnicode = record {
  space_ascii = λ r h. refl;
  letter_ascii = λ r h. refl;
  number_ascii = λ r h. refl;
  digit_ascii = λ r h. refl;
}

-- a source text of one byte for each rune
abbrev ascii_input : Text → Input
ascii_input = map (λ r. (r, 1))

abbrev source : Input
source = ascii_input (codes "{\"a\": [1, true] // x\n}")

new_literal : comment_literal_text (codes "/* old */") (codes " new ") ≡ done (codes "/* new */")
unfolding comment_literal_text has_prefix has_suffix text_eq contains
new_literal = refl

slashless : has_prefix (codes " new ") (codes "/") ≡ false
unfolding has_prefix
slashless = refl

not_line : has_prefix (codes "/* new */") (codes "//") ≡ true → EndsLine (codes "{}")
unfolding has_prefix
not_line h = cc

string-ne-anchor : string ≢ anchor
string-ne-anchor h = cc

decode_meta-Preserved_example :
    Preserved true (runes source) (decode_meta ascii true (new_jsonc_decoder source))
decode_meta-Preserved_example =
    decode_meta-Preserved ascii ascii-IsUnicode true (new_jsonc_decoder source) tt

literals-lex_example : literals (lex ascii source) ≡ runes source
literals-lex_example = literals-lex ascii ascii-IsUnicode source

lex-Placed_example : Placed [] (lex ascii (ascii_input (codes "[1]")))
lex-Placed_example =
    lex-Placed ascii ascii-IsUnicode (ascii_input (codes "[1]")) (refl, (refl, (refl, tt)))

more-Looked_example :
    Looked strict
      (new_lexer (ascii_input (codes " \n 1")))
      (more ascii (new_decoder (ascii_input (codes " \n 1"))))
more-Looked_example =
    more-Looked ascii ascii-IsUnicode (new_decoder (ascii_input (codes " \n 1"))) tt

valid_number_iff_example : (valid_number (codes "-1.5e+07") ≡ true) ↔ IsNumber (codes "-1.5e+07")
valid_number_iff_example = valid_number_iff (codes "-1.5e+07")

unquote_string-append_string_example :
    unquote_string (append_string (invalid_byte ∷ pieces (codes "a\"<\n\\é")) true) json5
    ≡ some (0xfffd ∷ codes "a\"<\n\\é")
unquote_string-append_string_example =
    unquote_string-append_string (invalid_byte ∷ pieces (codes "a\"<\n\\é")) true json5

parse_json_pointer_iff_example :
    (parse_json_pointer (codes "/a~1b/~0") ≡ some (codes "a/b" ∷ codes "~" ∷ []))
    ↔ (codes "/a~1b/~0" ≡ pointer_text (codes "a/b" ∷ codes "~" ∷ []))
parse_json_pointer_iff_example =
    parse_json_pointer_iff (codes "/a~1b/~0") (codes "a/b" ∷ codes "~" ∷ [])

comment_text-comment_literal_text_example : comment_text (codes "/* new */") ≡ done (codes " new ")
comment_text-comment_literal_text_example =
    comment_text-comment_literal_text (codes "/* old */") (codes " new ") (codes "/* new */")
      new_literal

append_html_escape-clean_example :
    (t : Text) × (append_html_escape (codes "x") (codes "\"<a>\"") ≡ codes "x" ++ t)
    × (clean t ≡ true)
    × (append_html_escape [] t ≡ t)
    × ((clean (codes "\"<a>\"") ≡ false) ⊎ (t ≡ codes "\"<a>\""))
append_html_escape-clean_example = append_html_escape-clean (codes "x") (codes "\"<a>\"")

scan_token-comment_literal_text_example :
    Scans
      (scan_token ascii (new_lexer (ascii_input (codes "/* new */{}"))))
      (token comment (codes "/* new */"))
      (codes "{}")
scan_token-comment_literal_text_example =
    scan_token-comment_literal_text ascii (codes "/* old */") (codes " new ") (codes "/* new */")
      (codes "{}") (new_lexer (ascii_input (codes "/* new */{}"))) new_literal slashless not_line
      refl

slash_star_slash_example :
    Scans
      (scan_token ascii (new_lexer (ascii_input (codes "/*/1"))))
      (token comment (codes "/*/"))
      (codes "1")
    × (comment_text (codes "/*/") ≡ panic)
slash_star_slash_example =
    slash_star_slash ascii (codes "1") (new_lexer (ascii_input (codes "/*/1"))) refl

token_string-ne-display_name_example : token_string string ≢ display_name string
token_string-ne-display_name_example = token_string-ne-display_name string string-ne-anchor

abbrev items : List Token
items = token delim (codes "[") ∷ token number (codes "1") ∷ token delim (codes "]") ∷ []

items-Nested : Nested (0, 0) items
unfolding is_open_delim is_close_delim is_left_brace is_left_bracket is_right_brace is_right_bracket
    text_eq
items-Nested =
    (omega arith, inl refl, (omega arith, inl refl, (omega arith, inr (omega arith), tt)))

indent_tokens-Spread_example :
    (s : Text) × (indent_tokens [] (codes "  ") none (0, 0) items ≡ some s) × Spread items s
indent_tokens-Spread_example =
    indent_tokens-Spread [] (codes "  ") tt (refl, (refl, tt)) none (0, 0) items items-Nested
      (tt, (tt, (tt, tt)))

indented : indent_tokens [] (codes "  ") none (0, 0) items ≡ some (codes "[\n  1\n]")
unfolding indent_tokens indent_token write_indent_newline is_open_delim is_close_delim is_left_brace
    is_left_bracket is_right_brace is_right_bracket text_eq
indented = refl

pointer_array_index_prefix_example :
    (pointer_array_index (b'0' ∷ b'7' ∷ []) false ≡ pointer_array_index (b'7' ∷ []) false)
    × (pointer_array_index (b'+' ∷ b'7' ∷ []) false ≡ pointer_array_index (b'7' ∷ []) false)
pointer_array_index_prefix_example = pointer_array_index_prefix b'7' [] false refl

trailing_json_space-Longest_example : Longest (codes "1 \n ") (trailing_json_space (codes "1 \n "))
trailing_json_space-Longest_example = trailing_json_space-Longest (codes "1 \n ")

decode-Streamed_example :
    Streamed (codes "[] 1") (decode ascii (new_decoder (ascii_input (codes "[] 1"))))
decode-Streamed_example =
    decode-Streamed ascii ascii-IsUnicode (new_decoder (ascii_input (codes "[] 1"))) tt

pointer_array_index-decimal_example : pointer_array_index (decimal 42) false ≡ index 42
pointer_array_index-decimal_example = pointer_array_index-decimal 42 false (omega arith)
