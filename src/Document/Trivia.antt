-- ===== src/Document/Trivia.antt =====
-- json/decoder.go: `More` takes tokens that are insignificant, and no others.
use roundtrip.Base.{
  ℕ, zero, suc, ◌<◌, ◌≡◌, refl, ap, sym, ◌∙◌, List, [], ◌∷◌, ◌++◌, Bool, true, false, not, ◌&&◌,
  Option, none, some, if_elim, length, length-append, append_assoc, All, inl, inr, arith,
}
use roundtrip.Chars.{Unicode, IsUnicode}
use roundtrip.Decoder.{Decoder, is_trivia}
use roundtrip.Document.{more_loop, more}
use roundtrip.Lexer.Lossless.{TokenOk, PeekOk, peek_token-PeekedOk, next_shown, length_pos}
use roundtrip.Lexer.{Lexer, pending, peek_token}
use roundtrip.Syntax.{SyntaxOptions}
use roundtrip.Token.{Token, is_eof, is_close_delim, literals}

-- The answer is given for the first token that is not trivia; the tokens before it are dropped, and
-- the text behind them is still to come.
pub data Looked (opts : SyntaxOptions) (l : Lexer) : Option (Bool × Lexer) → Type 0 where
  looked :
      {l' : Lexer} (dropped : List Token) (t : Token)
      → All (λ x. is_trivia x opts ≡ true) dropped
      → is_trivia t opts ≡ false
      → pending l ≡ literals dropped ++ pending l'
      → l'.peek ≡ some t
      → TokenOk t l'
      → Looked opts l (some (not (is_eof t.type) && not (is_close_delim t), l'))

Looked-behind :
    {opts : SyntaxOptions} {l l' : Lexer} {r : Option (Bool × Lexer)} (t : Token)
    → is_trivia t opts ≡ true
    → pending l ≡ t.literal ++ pending l'
    → Looked opts l' r
    → Looked opts l r
Looked-behind t y e (looked dropped x a b f p o) =
    looked (t ∷ dropped) x (y, a) b
      (e ∙ ap (λ s. t.literal ++ s) f ∙ sym (append_assoc t.literal (literals dropped) _)) p o

trivia-shorter :
    (opts : SyntaxOptions) (t : Token) (l l' : Lexer)
    → is_trivia t opts ≡ true
    → TokenOk t l'
    → pending l ≡ t.literal ++ pending l'
    → length (pending l') < length (pending l)
trivia-shorter opts t l l' y (inl (n, _)) e =
    omega (arith, ap length e, length-append t.literal (pending l'), length_pos t.literal n)
trivia-shorter opts t l l' y (inr (_, _, k)) e = ground arith

pending_shown :
    (t : Token) (l : Lexer)
    → l.peek ≡ some t
    → pending l ≡ t.literal ++ pending (record l { peek = none })
pending_shown t l e = rw e refl

module _ (u : Unicode) (law : IsUnicode u) where
  more_loop-Looked :
      (opts : SyntaxOptions) (k : ℕ) (l : Lexer)
      → PeekOk l
      → length (pending l) < k
      → Looked opts l (more_loop u opts k l)
  unfolding more_loop
  more_loop-Looked opts zero l r h = elim h [ ]
  more_loop-Looked opts (suc k) l r h =
      let p = peek_token-PeekedOk u law l r in
      let t = (peek_token u l).0 in
      let shown = (peek_token u l).1 in
      let text = sym p.text ∙ pending_shown t shown p.shown in
      if_elim (Looked opts l) (is_trivia t opts)
        (λ y. rw (next_shown u t shown p.shown) (
          let less = trivia-shorter opts t l (record shown { peek = none }) y p.ok text in
          Looked-behind t y text
            (more_loop-Looked opts k (record shown { peek = none }) tt (omega arith))))
        λ n. looked [] t tt n (sym p.text) p.shown p.ok

  -- The tables of runes are as documented on ASCII, and a token that is peeked has a literal or ends
  -- the input. Then `More` returns, after it has dropped tokens that are
  -- whitespace, newlines or comments that the syntax allows, and no others. It answers for the token
  -- behind them, which stays peeked: whether that is neither the end of the input nor a closing
  -- delimiter. The literals of the dropped tokens and the text that is still to come are the text
  -- that was to come before.
  pub more-Looked : (d : Decoder) → PeekOk d.lexer → Looked d.syntax d.lexer (more u d)
  unfolding more
  more-Looked d r = more_loop-Looked d.syntax _ d.lexer r (omega arith)
