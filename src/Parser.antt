-- ===== src/Parser.antt =====
-- json/decoder.go: `parse`, `parseObject` and `parseArray`.
pub mod Safe
use roundtrip.Base.{
  ℕ, zero, suc, Text, codes, List, [], ◌∷◌, Bool, true, false, not, ◌&&◌, ◌||◌, if◌then◌else◌,
  text_eq,
}
use roundtrip.Chars.{Unicode}
use roundtrip.Decoder.{
  Node, node, Nodes, nil, start_of, end_of, add_child, object_field_node, array_element_node,
  Decoder, ParseErrorKind, unexpected_eof, unexpected_token, duplicate_object_key, Result,
  out_of_fuel, M, ◌>>=◌, ◌>>◌, pure, fail, insert_anchor_before, insert_anchor_after, load,
  is_string_token, is_identifier, is_colon, syntax_of, peek, next, consume, parse_scalar,
  parse_identifier, parse_object_key, object_key_name,
}
use roundtrip.Token.{
  TokenType, eof, identifier, number, string, comma, delim, NodeType, object, array, string_node,
  number_node, Token, is_eof, is_right_brace, is_right_bracket,
}

module _ (u : Unicode) where
  abbrev contains : List Text → Text → Bool
  contains [] s = false
  contains (t ∷ ts) s = text_eq t s || contains ts s

  -- The text that the parser looks at next u is `}` or `]`: take it, and end the node there.
  close : NodeType → ℕ → Nodes → M Node
  close typ start children = do i ← next u; pure (node typ start i children)

  -- behind a child: a comma, the end of the node, or an error; `more` goes on with the token that
  -- is peeked behind the comma
  abbrev after_child : (Token → Bool) → TokenType → M Node → (Token → M Node) → Token → M Node
  after_child is_close comma done more t = do
    next u
    consume u
    t' ← peek u
    opts ← syntax_of
    if is_close t'
        then (if not opts.trailing_commas then fail unexpected_token t' else done)
        else more t'
  after_child is_close delim done more t =
      if not (is_close t) then fail unexpected_token t else done
  after_child is_close _ done more t = fail unexpected_token t

  -- one member: the key, the colon and the value, with the anchors round them
  abbrev parse_member : M Node → List Text → Token → M (Text × Node)
  parse_member value names t = do
    key ← parse_object_key u
    name ← object_key_name key
    key_token ← load (start_of key)
    if contains names name then fail duplicate_object_key key_token else (do
      consume u
      c ← peek u
      if is_eof c.type
          then fail unexpected_eof c
          else if not (is_colon c.type)
          then fail unexpected_token c
          else (do
            next u
            v ← value
            s ← insert_anchor_before (start_of key)
            e ← insert_anchor_after (end_of v)
            pure (name, object_field_node key v s e)))

  -- the loop of `parseObject`, on the rounds that are left; `t` is the peeked token
  object_loop : M Node → ℕ → ℕ → List Text → Nodes → Token → M Node
  object_loop value zero start names children t = λ d. out_of_fuel
  object_loop value (suc k) start names children t = do
    opts ← syntax_of
    if is_eof t.type
        then fail unexpected_eof t
        else if not (is_string_token t.type)
            && not (opts.ecma_script_identifiers && is_identifier t.type)
        then fail unexpected_token t
        else (do
          (name, field) ← parse_member value names t
          consume u
          c ← peek u
          let fields = add_child children field
          if is_eof c.type
              then fail unexpected_eof c
              else after_child is_right_brace c.type (close object start fields)
                  (object_loop value k start (name ∷ names) fields) c)

  parse_object : M Node → ℕ → M Node
  parse_object value k = do
    start ← next u
    consume u
    t ← peek u
    if is_right_brace t then close object start nil else object_loop value k start [] nil t

  -- one element with its anchors
  abbrev parse_element : M Node → M Node
  parse_element value = do
    v ← value
    s ← insert_anchor_before (start_of v)
    e ← insert_anchor_after (end_of v)
    pure (array_element_node v s e)

  -- the loop of `parseArray`
  array_loop : M Node → ℕ → ℕ → Nodes → Token → M Node
  array_loop value zero start children t = λ d. out_of_fuel
  array_loop value (suc k) start children t = if is_eof t.type then fail unexpected_eof t else (do
    element ← parse_element value
    consume u
    c ← peek u
    let elements = add_child children element
    if is_eof c.type
        then fail unexpected_eof c
        else after_child is_right_bracket c.type (close array start elements)
            (array_loop value k start elements) c)

  parse_array : M Node → ℕ → M Node
  parse_array value k = do
    start ← next u
    consume u
    t ← peek u
    if is_right_bracket t then close array start nil else array_loop value k start nil t

  -- the `switch` of `parse`
  parse_token : M Node → ℕ → TokenType → Token → M Node
  parse_token value k eof t = fail unexpected_eof t
  parse_token value k string t = parse_scalar u string_node
  parse_token value k number t = parse_scalar u number_node
  parse_token value k identifier t = parse_identifier u
  parse_token value k delim t =
      if text_eq t.literal (codes "{")
      then parse_object value k
      else if text_eq t.literal (codes "[")
      then parse_array value k
      else fail unexpected_token t
  parse_token value k _ t = fail unexpected_token t

  -- `parse`, on fuel that bounds the depth and the number of members
  pub parse : ℕ → M Node
  parse zero = λ d. out_of_fuel
  parse (suc k) = do consume u; t ← peek u; parse_token (parse k) k t.type t
