-- ===== src/Lexer.antt =====
-- json/lexer.go: runes to tokens. A `bufio.Reader` is the runes that it has yet to deliver, each with
-- the number of bytes that it took; an invalid byte comes as U+FFFD of size 1.
-- `Peek` of two ASCII bytes looks at the next two runes.
pub mod Lossless
pub mod Moves
pub mod Consumes
pub mod Scan
pub mod Positions
pub mod Blocks
pub mod Lines
use roundtrip.Base.{
  ℕ, zero, suc, Text, List, [], ◌∷◌, ◌++◌, Bool, true, false, not, ◌&&◌, ◌||◌, Option, none, some,
  ◌==◌, if◌then◌else◌, length,
}
use roundtrip.Chars.{Unicode, is_newline, is_horizontal_space, is_number_delimiter}
use roundtrip.Cursor.{Cursor, new_cursor, next as cursor_next, prev as cursor_prev}
use roundtrip.Token.{
  TokenType, illegal, eof, identifier, number, string, colon, comma, delim, whitespace, newline,
  comment, Token, token, is_eof,
}

abbrev pub Input : Type 0
Input = List (ℕ × ℕ)

abbrev pub runes : Input → Text
runes [] = []
runes ((r, n) ∷ rs) = r ∷ runes rs

-- `last` is what `UnreadRune` puts back: the rune of the last `ReadRune`, if nothing came between
pub record Lexer : Type 0 where
  pub reader : Input
  pub last : Option (ℕ × ℕ)
  pub peek : Option Token
  pub cursor : Cursor

abbrev pub new_lexer : Input → Lexer
new_lexer input = record { reader = input; last = none; peek = none; cursor = new_cursor }

-- The result of `readRune`: the reader's error, or a rune.
pub data Read : Type 0 where
  failed : Lexer → Read
  got : ℕ → Lexer → Read

abbrev pub peeked : Option Token → Text
peeked none = []
peeked (some t) = t.literal

-- the source text that the lexer has yet to hand out
abbrev pub pending : Lexer → Text
pending l = peeked l.peek ++ runes l.reader

read_from : Input → Lexer → Read
read_from [] l = failed (record l { last = none })
read_from ((r, n) ∷ rs) l =
    got r (record l { reader = rs; last = some (r, n); cursor = cursor_next l.cursor r n })

-- `readRune`
unfoldable pub read_rune : Lexer → Read
unfolding read_from
read_rune l = read_from l.reader l

unread_to : Option (ℕ × ℕ) → Lexer → Bool × Lexer
unread_to none l = (false, l)
unread_to (some p) l =
    (true, record l { reader = p ∷ l.reader; last = none; cursor = cursor_prev l.cursor })

-- `unreadRune`, with false for its error
unfoldable pub unread_rune : Lexer → Bool × Lexer
unfolding unread_to
unread_rune l = unread_to l.last l

peek_after : Read → Read
peek_after (failed l) = failed l
peek_after (got r l) = let (done, l') = unread_rune l in if done then got r l' else failed l'

-- `peekRune`
unfoldable pub peek_rune : Lexer → Read
unfolding read_rune unread_rune peek_after
peek_rune l = peek_after (read_rune l)

-- `assert` of two ASCII characters; `Peek` leaves nothing to unread
abbrev assert_in : Input → ℕ → ℕ → Bool
assert_in ((r, _) ∷ (s, _) ∷ _) a b = r == a && s == b
assert_in _ a b = false

abbrev assert2 : Lexer → ℕ → ℕ → Bool × Lexer
assert2 l a b = (assert_in l.reader a b, record l { last = none })

-- `_ = l.unreadRune()`
abbrev put_back : Lexer → Lexer
put_back l = (unread_rune l).1

-- The loop that the consumers of whitespace, newlines, numbers, identifiers and line comments share:
-- read while `accept` holds, put the first other rune back. The flag says that the input ended.
-- The fuel bounds the runes that are left.
run_loop : (ℕ → Bool) → ℕ → Text → Lexer → Text × Bool × Lexer
run_loop accept zero lit l = (lit, true, l)
run_loop accept (suc k) lit l = elim (read_rune l) [
  | failed l' ↦ (lit, true, l')
  | got r l' ↦ elim (accept r) [
    | false ↦ (lit, false, put_back l')
    | true ↦ run_loop accept k (lit ++ r ∷ []) l'
  ]
]

abbrev pub fuel_of : Lexer → ℕ
fuel_of l = suc (length l.reader)

unfoldable pub take_run : (ℕ → Bool) → Lexer → Text × Bool × Lexer
unfolding read_rune unread_rune run_loop
take_run accept l = run_loop accept (fuel_of l) [] l

abbrev tokenize : TokenType → Text × Bool × Lexer → Token × Lexer
tokenize typ (lit, _, l) = (token typ lit, l)

-- at the end of the input with nothing read there is no token
tokenize_run : TokenType → Text × Bool × Lexer → Token × Lexer
tokenize_run typ ([], true, l) = (token eof [], l)
tokenize_run typ (lit, _, l) = (token typ lit, l)

-- `consumeMultiLineComment`
pub multi_line_loop : ℕ → Text → ℕ → Lexer → Token × Lexer
multi_line_loop zero lit prev l = (token illegal lit, l)
multi_line_loop (suc k) lit prev l = elim (read_rune l) [
  | failed l' ↦ (token illegal lit, l')
  | got r l' ↦ elim (prev == b'*' && r == b'/') [
    | true ↦ (token comment (lit ++ r ∷ []), l')
    | false ↦ multi_line_loop k (lit ++ r ∷ []) r l'
  ]
]

unfoldable pub consume_multi_line_comment : Lexer → Token × Lexer
unfolding read_rune multi_line_loop
consume_multi_line_comment l = multi_line_loop (fuel_of l) [] 0 l

-- `len(lit) > 1`, after a rune has been added: the literal before it was not empty
abbrev nonempty : Text → Bool
nonempty [] = false
nonempty (_ ∷ _) = true

-- `consumeString`: a round reads one rune, or a backslash and the rune behind it
pub string_loop : ℕ → ℕ → Text → Lexer → Token × Lexer
string_loop quote zero lit l = (token string lit, l)
string_loop quote (suc k) lit l = elim (read_rune l) [
  | failed l' ↦ (token string lit, l')
  | got r l' ↦ elim (r == b'\\') [
    | true ↦ elim (read_rune l') [
      | failed l'' ↦ (token string (lit ++ r ∷ []), l'')
      | got s l'' ↦ string_loop quote k (lit ++ r ∷ s ∷ []) l''
    ]
    | false ↦ elim (r == quote && nonempty lit) [
      | true ↦ (token string (lit ++ r ∷ []), l')
      | false ↦ string_loop quote k (lit ++ r ∷ []) l'
    ]
  ]
]

unfoldable pub consume_string : ℕ → Lexer → Token × Lexer
unfolding read_rune string_loop
consume_string quote l = string_loop quote (fuel_of l) [] l

single_of : TokenType → Read → Token × Lexer
single_of typ (failed l) = (token typ (0 ∷ []), l)
single_of typ (got r l) = (token typ (r ∷ []), l)

-- `consumeSingle`, and with `illegal` the end of `scanToken`
unfoldable pub consume_single : TokenType → Lexer → Token × Lexer
unfolding read_rune single_of
consume_single typ l = single_of typ (read_rune l)

module _ (u : Unicode) where
  identifier_rune : ℕ → Bool
  identifier_rune r =
      not (not (u.is_letter r) && not (u.is_number r) && not (r == b'_') && not (r == b'$'))

  abbrev consume_whitespace : Lexer → Token × Lexer
  consume_whitespace l = tokenize_run whitespace (take_run (is_horizontal_space u) l)

  abbrev consume_newline : Lexer → Token × Lexer
  consume_newline l = tokenize_run newline (take_run is_newline l)

  abbrev consume_comment : Lexer → Token × Lexer
  consume_comment l = tokenize comment (take_run (λ r. not (r == b'\n' || r == b'\r')) l)

  abbrev consume_number : Lexer → Token × Lexer
  consume_number l = tokenize number (take_run (λ r. not (is_number_delimiter u r)) l)

  abbrev consume_identifier : Lexer → Token × Lexer
  consume_identifier l = tokenize identifier (take_run identifier_rune l)

  -- the second `switch` of `scanToken`, and what follows it
  scan_class : ℕ → Lexer → Token × Lexer
  scan_class r l =
      if is_horizontal_space u r
      then consume_whitespace l
      else if u.is_number r
      then consume_number l
      else if u.is_letter r || r == b'_' || r == b'$'
      then consume_identifier l
      else consume_single illegal l

  -- `case '/'`, which goes on to the second `switch` if no comment starts
  pub scan_slash : ℕ → Lexer → Token × Lexer
  scan_slash r l =
      let (line, l1) = assert2 l b'/' b'/' in
      let (block, l2) = assert2 l1 b'/' b'*' in
      if line
      then consume_comment l1
      else if block
      then consume_multi_line_comment l2
      else scan_class r l2

  pub scan_rune : ℕ → Lexer → Token × Lexer
  scan_rune r l =
      if r == b':'
      then consume_single colon l
      else if r == b','
      then consume_single comma l
      else if r == b'{' || r == b'}' || r == b'[' || r == b']'
      then consume_single delim l
      else if r == b'/'
      then scan_slash r l
      else if r == b'"' || r == b'\''
      then consume_string r l
      else if r == b'-' || r == b'+' || r == b'.'
      then consume_number l
      else if r == b'\n' || r == b'\r' || r == 0x2028 || r == 0x2029
      then consume_newline l
      else scan_class r l

  scan_peeked : Read → Token × Lexer
  scan_peeked (failed l) = (token eof [], l)
  scan_peeked (got r l) = scan_rune r l

  unfoldable pub scan_token : Lexer → Token × Lexer
  unfolding scan_peeked scan_rune scan_slash scan_class peek_rune take_run tokenize_run
      consume_single consume_string consume_multi_line_comment identifier_rune is_number_delimiter
  scan_token l = scan_peeked (peek_rune l)

  next_of : Option Token → Lexer → Token × Lexer
  next_of (some t) l = (t, record l { peek = none })
  next_of none l = let (t, l') = scan_token l in (record t { position = l.cursor.position }, l')

  -- `next`
  unfoldable pub next : Lexer → Token × Lexer
  unfolding next_of scan_token
  next l = next_of l.peek l

  peek_token_of : Option Token → Lexer → Token × Lexer
  peek_token_of (some t) l = (t, l)
  peek_token_of none l = let (t, l') = next l in (t, record l' { peek = some t })

  -- `peekToken`
  unfoldable pub peek_token : Lexer → Token × Lexer
  unfolding peek_token_of next
  peek_token l = peek_token_of l.peek l

  -- the loop of `lex`, on the rounds that are left
  lex_loop : ℕ → Lexer → List Token
  lex_loop zero l = []
  lex_loop (suc k) l =
      let step = next l in
      let rest = lex_loop k step.1 in if is_eof step.0.type then [] else step.0 ∷ rest

  -- `lex`, with every token yielded
  unfoldable pub lex : Input → List Token
  unfolding lex_loop next
  lex input = lex_loop (suc (length input)) (new_lexer input)
