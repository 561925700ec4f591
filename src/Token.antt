-- ===== src/Token.antt =====
-- json/types.go and internal/sst (token.go, enum.go): token types, node types, tokens.
pub mod Symbols
use roundtrip.Base.{ℕ, Bool, true, false, Text, codes, List, [], ◌∷◌, ◌++◌, if◌then◌else◌, text_eq}
use roundtrip.Base.{◌&&◌, ◌||◌}
use roundtrip.Cursor.{Position}

-- in the order of the declaration
pub data TokenType : Type 0 where
  anchor illegal eof identifier number string colon comma delim whitespace newline comment :
      TokenType

-- `NodeType`; the names carry `_node` where a token type has the plain one.
pub data NodeType : Type 0 where
  illegal_node object object_field array array_element : NodeType
  string_node number_node bool_node null_node : NodeType

pub record Token : Type 0 where
  pub type : TokenType
  pub literal : Text
  pub position : Position

-- a token with no position yet, as in `token{Type: t, Literal: lit}`
abbrev pub token : TokenType → Text → Token
token t lit = record {
  type = t;
  literal = lit;
  position = record { line = 0; column = 0; offset = 0 };
}

abbrev pub is_eof : TokenType → Bool
is_eof eof = true
is_eof _ = false

-- `IsAnchor`
abbrev pub is_anchor : TokenType → Bool
is_anchor anchor = true
is_anchor _ = false

abbrev is_delim : TokenType → Bool
is_delim delim = true
is_delim _ = false

-- The delimiter tests of util.go.
unfoldable pub is_left_brace : Token → Bool
unfolding text_eq
is_left_brace t = is_delim t.type && text_eq t.literal (codes "{")

unfoldable pub is_right_brace : Token → Bool
unfolding text_eq
is_right_brace t = is_delim t.type && text_eq t.literal (codes "}")

unfoldable pub is_left_bracket : Token → Bool
unfolding text_eq
is_left_bracket t = is_delim t.type && text_eq t.literal (codes "[")

unfoldable pub is_right_bracket : Token → Bool
unfolding text_eq
is_right_bracket t = is_delim t.type && text_eq t.literal (codes "]")

unfoldable pub is_open_delim : Token → Bool
unfolding is_left_brace is_left_bracket
is_open_delim t = is_left_brace t || is_left_bracket t

unfoldable pub is_close_delim : Token → Bool
unfolding is_right_brace is_right_bracket
is_close_delim t = is_right_brace t || is_right_bracket t

-- the source text that tokens stand for
abbrev pub literals : List Token → Text
literals [] = []
literals (t ∷ ts) = t.literal ++ literals ts
