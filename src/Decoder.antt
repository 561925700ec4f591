-- ===== src/Decoder.antt =====
-- json/decoder.go: the parser. An operation takes the decoder's state and returns a value with the
-- new state, an error with the state that it left, or says that it panicked.
pub mod Rules
pub mod Steps
pub mod Scalars
use roundtrip.Base.{
  ℕ, zero, suc, Text, codes, List, [], ◌∷◌, ◌++◌, Bool, true, false, not, ◌&&◌, ◌||◌, Option, none,
  some, if◌then◌else◌, text_eq, length,
}
use roundtrip.Chars.{Unicode, valid_strict_space, is_json5_identifier}
use roundtrip.Lexer.{Input, Lexer, new_lexer, pending, peek_token as lexer_peek, next as lexer_next}
use roundtrip.Number.{valid_number_with_options}
use roundtrip.Quote.{unquote_string}
use roundtrip.Syntax.{SyntaxOptions, comment_allowed}
use roundtrip.Token.{
  TokenType, anchor, eof, identifier, number, string, colon, comma, delim, whitespace, newline,
  comment, NodeType, object, object_field, array, array_element, string_node, number_node,
  bool_node, null_node, Token, token, is_eof, is_right_brace, is_right_bracket,
}
use roundtrip.TokenList.{TokenList, new_list, value_at, push_back, insert_before, insert_after}

-- `sst.Node`, with the names of its first and last element
mutual
  pub data Node : Type 0 where
    node : NodeType → ℕ → ℕ → Nodes → Node

  pub data Nodes : Type 0 where
    nil : Nodes
    cons : Node → Nodes → Nodes

abbrev pub start_of : Node → ℕ
start_of (node _ s _ _) = s

abbrev pub end_of : Node → ℕ
end_of (node _ _ e _) = e

abbrev pub leaf : NodeType → ℕ → Node
leaf t i = node t i i nil

-- `append(children, n)`
abbrev pub add_child : Nodes → Node → Nodes
add_child nil n = cons n nil
add_child (cons m ms) n = cons m (add_child ms n)

abbrev pub object_field_node : Node → Node → ℕ → ℕ → Node
object_field_node key value s e = node object_field s e (cons key (cons value nil))

abbrev pub array_element_node : Node → ℕ → ℕ → Node
array_element_node value s e = node array_element s e (cons value nil)

pub record Decoder : Type 0 where
  pub lexer : Lexer
  pub tokens : TokenList
  pub current : Option ℕ
  pub syntax : SyntaxOptions

pub data ParseErrorKind : Type 0 where
  unexpected_eof unexpected_token invalid_string invalid_number : ParseErrorKind
  invalid_space duplicate_object_key : ParseErrorKind

pub data Result (A : Type 0) : Type 0 where
  ok : A → Decoder → Result A
  parse_error : ParseErrorKind → Token → Decoder → Result A
  panic : Result A
  out_of_fuel : Result A

abbrev pub M : Type 0 → Type 0
M A = Decoder → Result A

module _ {A B : Type 0} where
  abbrev pub and_then : Result A → (A → M B) → Result B
  and_then (ok a d) k = k a d
  and_then (parse_error e t d) k = parse_error e t d
  and_then panic k = panic
  and_then out_of_fuel k = out_of_fuel

  infixl 5 ◌>>=◌ ◌>>◌
  abbrev pub ◌>>=◌ : M A → (A → M B) → M B
  m >>= k = λ d. and_then (m d) k

  abbrev pub ◌>>◌ : M A → M B → M B
  m >> k = m >>= λ _. k

abbrev pub pure : {A : Type 0} → A → M A
pure = ok

abbrev pub fail : {A : Type 0} → ParseErrorKind → Token → M A
fail = parse_error

-- a call that panics where it has no result
abbrev lift_tokens : Decoder → Option (ℕ × TokenList) → Result ℕ
lift_tokens d none = panic
lift_tokens d (some (i, ts)) = ok i (record d { tokens = ts })

pub insert_anchor_before : ℕ → M ℕ
insert_anchor_before mark d = lift_tokens d (insert_before d.tokens mark (token anchor []))

pub insert_anchor_after : ℕ → M ℕ
insert_anchor_after mark d = lift_tokens d (insert_after d.tokens mark (token anchor []))

value_or_panic : Option Token → M Token
value_or_panic none = λ d. panic
value_or_panic (some t) = ok t

-- `e.Value`
pub load : ℕ → M Token
unfolding value_or_panic
load i d = value_or_panic (value_at d.tokens.elems i) d

abbrev pub is_string_token : TokenType → Bool
is_string_token string = true
is_string_token _ = false

abbrev pub is_identifier : TokenType → Bool
is_identifier identifier = true
is_identifier _ = false

abbrev pub is_number_token : TokenType → Bool
is_number_token number = true
is_number_token _ = false

abbrev pub is_colon : TokenType → Bool
is_colon colon = true
is_colon _ = false

abbrev pub is_space_token : TokenType → Bool
is_space_token whitespace = true
is_space_token newline = true
is_space_token _ = false

abbrev pub is_comment : TokenType → Bool
is_comment comment = true
is_comment _ = false

-- the tokens that `consume` takes
abbrev pub is_trivia : Token → SyntaxOptions → Bool
is_trivia t opts = is_space_token t.type || is_comment t.type && comment_allowed t opts

-- `d.SyntaxOptions`
abbrev pub syntax_of : M SyntaxOptions
syntax_of d = ok d.syntax d

module _ (u : Unicode) where
  -- `d.l.peekToken()`
  pub peek : M Token
  peek d = let (t, l) = lexer_peek u d.lexer in ok t (record d { lexer = l })

  -- `next`, with the element that it makes the current one
  pub next : M ℕ
  next d =
      let (t, l) = lexer_next u d.lexer in
      let (i, ts) = push_back d.tokens t in
      ok i (record d { lexer = l; tokens = ts; current = some i })

  abbrev bad_space : Token → SyntaxOptions → Bool
  bad_space t opts =
      is_space_token t.type && not opts.additional_whitespace && not (valid_strict_space t.literal)

  -- the loop of `consume`, on the rounds that are left
  pub consume_loop : ℕ → M (Unit {0})
  consume_loop zero = λ d. out_of_fuel
  consume_loop (suc k) = do
    t ← peek
    opts ← syntax_of
    let more = next >> consume_loop k
    if is_trivia t opts then (if bad_space t opts then fail invalid_space t else more) else pure tt

  -- one for each rune that is pending, and the last round
  abbrev pub rounds : Decoder → ℕ
  rounds d = suc (length (pending d.lexer))

  pub consume : M (Unit {0})
  consume d = consume_loop (rounds d) d

  abbrev is_none : Option Text → Bool
  is_none none = true
  is_none (some _) = false

  -- `validateString`
  validate_string : Token → M (Unit {0})
  validate_string t = do
    opts ← syntax_of
    if not (is_string_token t.type)
        then fail unexpected_token t
        else if is_none (unquote_string t.literal opts)
        then fail invalid_string t
        else pure tt

  -- `validateNumber`
  validate_number : Token → M (Unit {0})
  validate_number t = do
    opts ← syntax_of
    if not (is_number_token t.type) && not (is_identifier t.type)
        then fail unexpected_token t
        else if valid_number_with_options t.literal opts
        then pure tt
        else fail invalid_number t

  -- the `switch` of `parseScalar`
  validate : NodeType → Token → M (Unit {0})
  validate string_node t = validate_string t
  validate number_node t = validate_number t
  validate _ t = pure tt

  pub parse_scalar : NodeType → M Node
  parse_scalar typ = do t ← peek; validate typ t; i ← next; pure (leaf typ i)

  pub parse_identifier : M Node
  parse_identifier = do
    t ← peek
    opts ← syntax_of
    if text_eq t.literal (codes "true") || text_eq t.literal (codes "false")
        then parse_scalar bool_node
        else if text_eq t.literal (codes "null")
        then parse_scalar null_node
        else if valid_number_with_options t.literal opts
        then parse_scalar number_node
        else fail unexpected_token t

  pub parse_object_key : M Node
  parse_object_key = do
    t ← peek
    if is_identifier t.type
        then (if not (is_json5_identifier u t.literal)
            then fail unexpected_token t
            else (do i ← next; pure (leaf string_node i)))
        else parse_scalar string_node

abbrev name_or : Option Text → Token → M Text
name_or none t = fail invalid_string t
name_or (some s) t = pure s

-- `objectKeyName`, and the error that `parseObject` makes of its error
pub object_key_name : Node → M Text
object_key_name key = do
  t ← load (start_of key)
  opts ← syntax_of
  if is_identifier t.type then pure t.literal else name_or (unquote_string t.literal opts) t
