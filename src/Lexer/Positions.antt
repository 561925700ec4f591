-- ===== src/Lexer/Positions.antt =====
-- internal/cursor and json/lexer.go: the positions of the tokens.
use roundtrip.Base.{
  ℕ, zero, suc, ◌+◌, ◌≡◌, refl, ap, ◌∙◌, inl, inr, Text, List, [], ◌∷◌, ◌++◌, none, length, Bool,
  false, ◌||◌, ◌==◌, if◌then◌else◌, append-nil, append_assoc, length-append, sym, Bool-cases, arith,
}
use roundtrip.Chars.{Unicode, IsUnicode}
use roundtrip.Lexer.Lossless.{next-Fresh}
use roundtrip.Lexer.Moves.{advance, rune_len, IsUtf8}
use roundtrip.Cursor.{Position, move}
use roundtrip.Lexer.{Input, Lexer, new_lexer, next, lex, lex_loop}
use roundtrip.Token.{Token, is_eof}

-- the bytes of a text
abbrev pub text_bytes : Text → ℕ
text_bytes [] = 0
text_bytes (r ∷ s) = rune_len r + text_bytes s

text_bytes-append : (s t : Text) → text_bytes (s ++ t) ≡ text_bytes s + text_bytes t
text_bytes-append [] t = omega arith
text_bytes-append (c ∷ s) t = omega (arith, text_bytes-append s t)

-- `\r` and `\n`, which start a line at the left margin
abbrev pub is_break : ℕ → Bool
is_break r = r == b'\r' || r == b'\n'

abbrev pub has_break : Text → Bool
has_break [] = false
has_break (r ∷ s) = is_break r || has_break s

-- one more than the number of line feeds
abbrev pub line_of : Text → ℕ
line_of [] = 1
line_of (r ∷ s) = if r == b'\n' then line_of s + 1 else line_of s

-- one more than the number of runes behind the last break
abbrev pub column_of : Text → ℕ
column_of [] = 1
column_of (r ∷ s) =
    if has_break s then column_of s else if is_break r then length s + 1 else length s + 2

-- the position behind a text, from the text alone
abbrev pub position_of : Text → Position
position_of s = record { line = line_of s; column = column_of s; offset = text_bytes s }

has_break-append : (s t : Text) → has_break (s ++ t) ≡ has_break s || has_break t
has_break-append [] t = refl
has_break-append (r ∷ s) t = ground (arith, has_break-append s t)

line_of_snoc :
    (s : Text) (r : ℕ) → line_of (s ++ r ∷ []) ≡ (if r == b'\n' then line_of s + 1 else line_of s)
line_of_snoc [] r = refl
line_of_snoc (c ∷ s) r = ground (arith, line_of_snoc s r)

column_of_snoc :
    (s : Text) (r : ℕ) → column_of (s ++ r ∷ []) ≡ (if is_break r then 1 else column_of s + 1)
column_of_snoc [] r = ground arith
column_of_snoc (c ∷ s) r =
    ground (arith, column_of_snoc s r, has_break-append s (r ∷ []), length-append s (r ∷ []))

position_of_snoc :
    (s : Text) (r : ℕ)
    → move (record (position_of s) { offset = text_bytes s + rune_len r }) r
      ≡ position_of (s ++ r ∷ [])
position_of_snoc s r =
    rw (line_of_snoc s r, column_of_snoc s r, bytes)
      (elim (Bool-cases (r == b'\r')) [
        | inl y ↦ let n : (r == b'\n') ≡ false = ground arith in rw (y, n) refl
        | inr y ↦ elim (Bool-cases (r == b'\n')) [ inl n ↦ rw (y, n) refl | inr n ↦ rw (y, n) refl ]
      ])
  where
    bytes : text_bytes (s ++ r ∷ []) ≡ text_bytes s + rune_len r
    bytes = omega (arith, text_bytes-append s (r ∷ []))

advance-position_of : (s t : Text) → advance (position_of s) t ≡ position_of (s ++ t)
advance-position_of s [] = ap position_of (sym (append-nil s))
advance-position_of s (r ∷ t) =
    ap (λ p. advance p t) (position_of_snoc s r)
    ∙ advance-position_of (s ++ r ∷ []) t
    ∙ ap position_of (append_assoc s (r ∷ []) t)

-- Each token is at the position of the text before it, which is `s` for the first one.
abbrev pub Placed : Text → List Token → Type 0
Placed s [] = Unit
Placed s (t ∷ ts) = (t.position ≡ position_of s) × Placed (s ++ t.literal) ts

module _ (u : Unicode) (law : IsUnicode u) where
  lex_loop-Placed :
      (k : ℕ) (l : Lexer) (s : Text)
      → l.peek ≡ none
      → IsUtf8 l.reader
      → l.cursor.position ≡ position_of s
      → Placed s (lex_loop u k l)
  unfolding lex_loop
  lex_loop-Placed zero l s e v h = tt
  lex_loop-Placed (suc k) l s e v h =
      let f = next-Fresh u law l e in
      let lit = (next u l).0.literal in
      elim (Bool-cases (is_eof (next u l).0.type)) [
        | inl y ↦ rw (lex_loop, y) tt
        | inr n ↦
            rw (lex_loop, n)
              (
                f.position ∙ h,
                lex_loop-Placed k (next u l).1 (s ++ lit) (f.moved.peek ∙ e) (f.moved.utf8 v)
                    (f.moved.placed v ∙ ap (λ p. advance p lit) h ∙ advance-position_of s lit),
              )
      ]

  -- On valid UTF-8, with tables of runes that are as documented on ASCII, the position of each token
  -- of `lex` is the position behind the literals before it: the line is one more than their line feeds, the column is one more than the runes behind
  -- the last `\r` or `\n`, and the offset is the number of their bytes.
  pub lex-Placed : (input : Input) → IsUtf8 input → Placed [] (lex u input)
  unfolding lex
  lex-Placed input v = lex_loop-Placed (suc (length input)) (new_lexer input) [] refl v refl
