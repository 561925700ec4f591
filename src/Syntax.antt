-- ===== src/Syntax.antt =====
-- json/syntax.go: the extensions that a decoder accepts.
use roundtrip.Base.{Bool, true, false, not, ◌&&◌, codes, has_prefix, if◌then◌else◌}
use roundtrip.Token.{Token}

pub record SyntaxOptions : Type 0 where
  pub ecma_script_identifiers : Bool
  pub trailing_commas : Bool
  pub single_quoted_strings : Bool
  pub multiline_strings : Bool
  pub string_character_escapes : Bool
  pub hexadecimal_numbers : Bool
  pub leading_or_trailing_decimal_points : Bool
  pub leading_plus_signs : Bool
  pub ieee754_numbers : Bool
  pub single_line_comments : Bool
  pub multiline_comments : Bool
  pub additional_whitespace : Bool

-- the zero value
abbrev pub strict : SyntaxOptions
strict = record {
  ecma_script_identifiers = false;
  trailing_commas = false;
  single_quoted_strings = false;
  multiline_strings = false;
  string_character_escapes = false;
  hexadecimal_numbers = false;
  leading_or_trailing_decimal_points = false;
  leading_plus_signs = false;
  ieee754_numbers = false;
  single_line_comments = false;
  multiline_comments = false;
  additional_whitespace = false;
}

-- `JSONCSyntaxOptions`
abbrev pub jsonc : SyntaxOptions
jsonc = record strict {
  trailing_commas = true;
  single_line_comments = true;
  multiline_comments = true;
}

-- `JSON5SyntaxOptions`
abbrev pub json5 : SyntaxOptions
json5 = record jsonc {
  ecma_script_identifiers = true;
  single_quoted_strings = true;
  multiline_strings = true;
  string_character_escapes = true;
  hexadecimal_numbers = true;
  leading_or_trailing_decimal_points = true;
  leading_plus_signs = true;
  ieee754_numbers = true;
  additional_whitespace = true;
}

unfoldable pub strict_numbers : SyntaxOptions → Bool
strict_numbers opts =
    not opts.hexadecimal_numbers
    && not opts.leading_or_trailing_decimal_points
    && not opts.leading_plus_signs
    && not opts.ieee754_numbers

unfoldable pub comment_allowed : Token → SyntaxOptions → Bool
comment_allowed t opts =
    if has_prefix t.literal (codes "//")
    then opts.single_line_comments
    else if has_prefix t.literal (codes "/*")
    then opts.multiline_comments
    else false
