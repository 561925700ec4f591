-- ===== src/Token/Symbols.antt =====
-- json/types.go, `TokenType.String` and `NodeType.String`. In the `const` block of the token types
-- `iota` counts from the line of `TokenAnchor`, so `TokenIllegal` is 1 and `TokenComment` is 11.
use roundtrip.Base.{
  ℕ, zero, suc, Text, codes, List, [], ◌∷◌, Option, none, some, ◌≢◌, refl, text_eq, ne_of_text_eq,
}
use roundtrip.Token.{
  TokenType, anchor, illegal, eof, identifier, number, string, colon, comma, delim, whitespace,
  newline, comment, NodeType, illegal_node, object, object_field, array, array_element, string_node,
  number_node, bool_node, null_node,
}

-- `int(t)`; `none` is -1
abbrev pub token_code : TokenType → Option ℕ
token_code anchor = none
token_code illegal = some 1
token_code eof = some 2
token_code identifier = some 3
token_code number = some 4
token_code string = some 5
token_code colon = some 6
token_code comma = some 7
token_code delim = some 8
token_code whitespace = some 9
token_code newline = some 10
token_code comment = some 11

abbrev pub token_symbols : List Text
token_symbols =
    codes "ILLEGAL"
    ∷ codes "EOF"
    ∷ codes "IDENTIFIER"
    ∷ codes "NUMBER"
    ∷ codes "STRING"
    ∷ codes "COLON"
    ∷ codes "COMMA"
    ∷ codes "DELIM"
    ∷ codes "WHITESPACE"
    ∷ codes "NEWLINE"
    ∷ codes "COMMENT"
    ∷ []

-- `symbols[i]`, and `d` past the end
abbrev symbol_at : List Text → ℕ → Text → Text
symbol_at [] i d = d
symbol_at (s ∷ ss) zero d = s
symbol_at (s ∷ ss) (suc i) d = symbol_at ss i d

symbol_of : Option ℕ → Text
symbol_of none = codes "ANCHOR"
symbol_of (some i) = symbol_at token_symbols i (codes "ILLEGAL")

-- `TokenType.String`
pub token_string : TokenType → Text
unfolding symbol_of
token_string t = symbol_of (token_code t)

abbrev pub node_code : NodeType → ℕ
node_code illegal_node = 0
node_code object = 1
node_code object_field = 2
node_code array = 3
node_code array_element = 4
node_code string_node = 5
node_code number_node = 6
node_code bool_node = 7
node_code null_node = 8

abbrev pub node_symbols : List Text
node_symbols =
    codes "ILLEGAL"
    ∷ codes "OBJECT"
    ∷ codes "OBJECT_FIELD"
    ∷ codes "ARRAY"
    ∷ codes "ARRAY_ELEMENT"
    ∷ codes "STRING"
    ∷ codes "NUMBER"
    ∷ codes "BOOL"
    ∷ codes "NULL"
    ∷ []

-- `NodeType.String`; every node type has a symbol, so the default is not reached
pub node_string : NodeType → Text
node_string t = symbol_at node_symbols (node_code t) []

-- the name that the comment on each constant gives it
abbrev pub display_name : TokenType → Text
display_name anchor = codes "ANCHOR"
display_name illegal = codes "ILLEGAL"
display_name eof = codes "EOF"
display_name identifier = codes "IDENTIFIER"
display_name number = codes "NUMBER"
display_name string = codes "STRING"
display_name colon = codes "COLON"
display_name comma = codes "COMMA"
display_name delim = codes "DELIM"
display_name whitespace = codes "WHITESPACE"
display_name newline = codes "NEWLINE"
display_name comment = codes "COMMENT"

-- Every token type but the anchor is displayed by another name than its own.
pub token_string-ne-display_name : (t : TokenType) → t ≢ anchor → token_string t ≢ display_name t
unfolding token_string text_eq
token_string-ne-display_name anchor h = absurd (h refl)
token_string-ne-display_name _ h = ne_of_text_eq _ _ refl
