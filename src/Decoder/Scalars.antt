-- ===== src/Decoder/Scalars.antt =====
-- Trivia, scalars and keys: the operations below the parser's loops.
use roundtrip.Base.{
  ℕ, zero, suc, ◌<◌, ◌≡◌, ap, Text, codes, true, false, not, ◌&&◌, ◌||◌, Option, none, some,
  text_eq, arith,
}
use roundtrip.Chars.{Unicode, IsUnicode, is_json5_identifier}
use roundtrip.Decoder.Rules.{size, Keeps, Safe, bind, branch, Keeps-trans, pure-Safe, fail-Safe}
use roundtrip.Decoder.Steps.{Shown, Shown-PeekOk, HasElem, load-Safe, peek-Safe, next-Safe}
use roundtrip.Decoder.{
  Node, start_of, end_of, leaf, Decoder, ok, M, invalid_space, unexpected_token, invalid_string,
  invalid_number, is_trivia, peek, consume_loop, consume, bad_space, ◌>>◌, ◌>>=◌, is_string_token,
  is_number_token, is_identifier, is_none, validate_string, validate_number, validate, parse_scalar,
  parse_identifier, parse_object_key, object_key_name, name_or,
}
use roundtrip.Lexer.Lossless.{PeekOk, peek_token_shown}
use roundtrip.Number.{valid_number_with_options}
use roundtrip.Quote.{unquote_string}
use roundtrip.Syntax.{SyntaxOptions}
use roundtrip.Token.{NodeType, string_node, number_node, bool_node, null_node, Token, is_eof}

-- a node whose ends are in the list, with less than `bound` of the text left
pub record Parsed (bound : ℕ) (n : Node) (c : Decoder) : Type 0 where
  pub start : HasElem (start_of n) c
  pub end : HasElem (end_of n) c
  pub smaller : size c < bound

is_trivia-not-eof :
    (t : Token) (opts : SyntaxOptions) → is_trivia t opts ≡ true → is_eof t.type ≡ false
is_trivia-not-eof t opts h = ground arith

-- a peek at a token that is shown changes nothing
peek-Shown : (u : Unicode) (t : Token) (d : Decoder) → Shown t d → peek u d ≡ ok t d
unfolding peek
peek-Shown u t d (e, k) =
    ap (λ p. ok p.0 (record d { lexer = p.1 })) (peek_token_shown u t d.lexer e)

module _ (u : Unicode) (t : Token) (d : Decoder) (s : Shown t d) where
  validate_string-Safe : Safe d (λ _ c. Shown t c) (validate_string u t d)
  unfolding validate_string
  validate_string-Safe =
      branch (not (is_string_token t.type)) _ _
        (λ _. fail-Safe unexpected_token t (Shown-PeekOk t d s))
        λ _.
          branch (is_none u (unquote_string t.literal d.syntax)) _ _
            (λ _. fail-Safe invalid_string t (Shown-PeekOk t d s))
            λ _. pure-Safe tt (Shown-PeekOk t d s) s

  validate_number-Safe : Safe d (λ _ c. Shown t c) (validate_number u t d)
  unfolding validate_number
  validate_number-Safe =
      branch (not (is_number_token t.type) && not (is_identifier t.type)) _ _
        (λ _. fail-Safe unexpected_token t (Shown-PeekOk t d s))
        λ _.
          branch (valid_number_with_options t.literal d.syntax) _ _
            (λ _. pure-Safe tt (Shown-PeekOk t d s) s)
            λ _. fail-Safe invalid_number t (Shown-PeekOk t d s)

  validate-Safe : (typ : NodeType) → Safe d (λ _ c. Shown t c) (validate u typ t d)
  unfolding validate
  validate-Safe string_node = validate_string-Safe
  validate-Safe number_node = validate_number-Safe
  validate-Safe _ = pure-Safe tt (Shown-PeekOk t d s) s

  pub parse_scalar-Safe :
      (typ : NodeType) → is_eof t.type ≡ false → Safe d (Parsed (size d)) (parse_scalar u typ d)
  unfolding parse_scalar
  parse_scalar-Safe typ n = rw (peek-Shown u t d s) (
      bind (validate-Safe typ) λ _ b p s'. bind (next-Safe u t b s') λ i c q (h, less).
        let small = less n in
        pure-Safe (leaf typ i) q.ready
          (record { start = h; end = h; smaller = omega (arith, p.shrinks) }))

  pub parse_identifier-Safe :
      is_eof t.type ≡ false → Safe d (Parsed (size d)) (parse_identifier u d)
  unfolding parse_identifier
  parse_identifier-Safe n = rw (peek-Shown u t d s) (
      branch (text_eq t.literal (codes "true") || text_eq t.literal (codes "false")) _ _
        (λ _. parse_scalar-Safe bool_node n)
        λ _.
          branch (text_eq t.literal (codes "null")) _ _ (λ _. parse_scalar-Safe null_node n)
            λ _.
              branch (valid_number_with_options t.literal d.syntax) _ _
                (λ _. parse_scalar-Safe number_node n)
                λ _. fail-Safe unexpected_token t (Shown-PeekOk t d s))

  pub parse_object_key-Safe :
      is_eof t.type ≡ false → Safe d (Parsed (size d)) (parse_object_key u d)
  unfolding parse_object_key
  parse_object_key-Safe n = rw (peek-Shown u t d s) (
      branch (is_identifier t.type) _ _
        (λ _.
          branch (not (is_json5_identifier u t.literal)) _ _
            (λ _. fail-Safe unexpected_token t (Shown-PeekOk t d s))
            λ _. bind (next-Safe u t d s) λ i c q (h, less).
              pure-Safe (leaf string_node i) q.ready
                (record { start = h; end = h; smaller = less n }))
        λ _. parse_scalar-Safe string_node n)

name_or-Safe :
    (o : Option Text) (t : Token) (d : Decoder)
    → PeekOk d.lexer
    → Safe d (λ _ _. Unit {0}) (name_or o t d)
name_or-Safe none t d r = fail-Safe invalid_string t r
name_or-Safe (some s) t d r = pure-Safe s r tt

pub object_key_name-Safe :
    (key : Node) (d : Decoder)
    → PeekOk d.lexer
    → HasElem (start_of key) d
    → Safe d (λ _ _. Unit {0}) (object_key_name key d)
unfolding object_key_name
object_key_name-Safe key d r h = bind (load-Safe (start_of key) d r h) λ t c p _.
    branch (is_identifier t.type) _ _ (λ _. pure-Safe t.literal p.ready tt)
      λ _. name_or-Safe (unquote_string t.literal c.syntax) t c p.ready

module _ (u : Unicode) (law : IsUnicode u) where
  consume_loop-Safe :
      (k : ℕ) (d : Decoder)
      → PeekOk d.lexer
      → size d < k
      → Safe d (λ _ _. Unit {0}) (consume_loop u k d)
  unfolding consume_loop
  consume_loop-Safe zero d r h = elim h [ ]
  consume_loop-Safe (suc k) d r h = bind (peek-Safe u law d r) λ t c p s.
      branch (is_trivia t c.syntax) _ _
        (λ y.
          branch (bad_space u t c.syntax) _ _ (λ _. fail-Safe invalid_space t (Shown-PeekOk t c s))
            λ _. bind (next-Safe u t c s) λ i e q (x, smaller).
              let less = smaller (is_trivia-not-eof t c.syntax y) in
              consume_loop-Safe k e q.ready (omega arith))
        λ _. pure-Safe tt (Shown-PeekOk t c s) tt

  pub consume-Safe : (d : Decoder) → PeekOk d.lexer → Safe d (λ _ _. Unit {0}) (consume u d)
  unfolding consume
  consume-Safe d r = consume_loop-Safe (suc (size d)) d r (omega arith)

  -- `consume` and the peek behind it
  pub consume_peek-Safe :
      {A : Type 0} {R : A → Decoder → Type 0} (k : Token → M A) (d : Decoder)
      → PeekOk d.lexer
      → ((t : Token) (c : Decoder) → Keeps d c → Shown t c → Safe c R (k t c))
      → Safe d R ((consume u >> (peek u >>= k)) d)
  consume_peek-Safe k d r go =
      bind (consume-Safe d r)
        λ _ b p _. bind (peek-Safe u law b p.ready) λ t c q s. go t c (Keeps-trans p q) s
