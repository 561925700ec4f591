-- ===== src/Lexer/Lossless.antt =====
-- json/lexer.go: `next` and `peekToken` lose no rune, and `lex` splits the input into its tokens.
use roundtrip.Base.{
  ℕ, zero, suc, ◌<◌, ◌≡◌, ◌≢◌, refl, ◌⊎◌, inl, inr, ap, sym, ◌∙◌, Text, [], ◌∷◌, ◌++◌, false,
  Option, none, some, subst, length, arith, Bool-cases,
}
use roundtrip.Chars.{Unicode, IsUnicode}
use roundtrip.Lexer.Moves.{Moved}
use roundtrip.Lexer.Scan.{scan_token-outcome}
use roundtrip.Lexer.{
  Input, Lexer, new_lexer, runes, peeked, pending, scan_token, next, next_of, peek_token,
  peek_token_of, lex, lex_loop,
}
use roundtrip.Token.{eof, Token, is_eof, literals}

-- A token ends the input, or has a literal.
abbrev pub TokenOk : Token → Lexer → Type 0
TokenOk t l =
    ((t.literal ≢ []) × (is_eof t.type ≡ false))
    ⊎ ((l.reader ≡ []) × (t.literal ≡ []) × (t.type ≡ eof))

abbrev PeekedTokenOk : Option Token → Lexer → Type 0
PeekedTokenOk none l = Unit
PeekedTokenOk (some t) l = TokenOk t l

abbrev pub PeekOk : Lexer → Type 0
PeekOk l = PeekedTokenOk l.peek l

-- what `next` returns
pub record NextOk (l : Lexer) (r : Token × Lexer) : Type 0 where
  pub text : pending l ≡ r.0.literal ++ runes r.1.reader
  pub peek : r.1.peek ≡ none
  pub ok : TokenOk r.0 r.1

runes_nil : (rs : Input) → runes rs ≡ [] → rs ≡ []
runes_nil [] h = refl
runes_nil (x ∷ rs) h = cc

reader_stays_nil : {l l' : Lexer} → l.reader ≡ [] → Moved l [] l' → l'.reader ≡ []
reader_stays_nil {l} {l'} a m = runes_nil l'.reader (sym m.text ∙ ap runes a)

pub length_pos : (s : Text) → s ≢ [] → 0 < length s
length_pos [] h = absurd (h refl)
length_pos (c ∷ s) h = omega arith

-- what `next` does with nothing peeked
pub record Fresh (l : Lexer) (r : Token × Lexer) : Type 0 where
  pub moved : Moved l r.0.literal r.1
  pub position : r.0.position ≡ l.cursor.position
  pub ok : TokenOk r.0 r.1

Fresh-shorter :
    {l : Lexer} {r : Token × Lexer}
    → Fresh l r
    → is_eof r.0.type ≡ false
    → length r.1.reader < length l.reader
Fresh-shorter f n = elim f.ok [
  | inl (ne, _) ↦ omega (arith, f.moved.count, length_pos _ ne)
  | inr (_, _, e) ↦ cc
]

-- A token that was peeked is the one that `next` returns.
pub next_shown :
    (u : Unicode) (t : Token) (l : Lexer)
    → l.peek ≡ some t
    → next u l ≡ (t, record l { peek = none })
unfolding next next_of
next_shown u t l e = ap (λ p. next_of u p l) e

pub peek_token_shown :
    (u : Unicode) (t : Token) (l : Lexer) → l.peek ≡ some t → peek_token u l ≡ (t, l)
unfolding peek_token peek_token_of
peek_token_shown u t l e = ap (λ p. peek_token_of u p l) e

module _ (u : Unicode) (law : IsUnicode u) where
  next_of-Fresh : (l : Lexer) → Fresh l (next_of u none l)
  unfolding next_of
  next_of-Fresh l = elim (scan_token-outcome u law l) [
    | inl s ↦ record { moved = s.moved; position = refl; ok = inl (s.literal_ne_nil, s.not_eof) }
    | inr (a, b, c, m) ↦ record {
      moved = subst (λ s. Moved l s (scan_token u l).1) (sym c) m;
      position = refl;
      ok = inr (reader_stays_nil a m, c, b);
    }
  ]

  pub next-Fresh : (l : Lexer) → l.peek ≡ none → Fresh l (next u l)
  unfolding next
  next-Fresh l e = subst (λ p. Fresh l (next_of u p l)) (sym e) (next_of-Fresh l)

  next_of-NextOk :
      (p : Option Token) (l : Lexer) → l.peek ≡ p → PeekedTokenOk p l → NextOk l (next_of u p l)
  next_of-NextOk (some t) l e h = unfold next_of in record { text = rw e refl; peek = refl; ok = h }
  next_of-NextOk none l e h =
      let f = next_of-Fresh l in
      record {
        text = ap (λ p. peeked p ++ runes l.reader) e ∙ f.moved.text;
        peek = f.moved.peek ∙ e;
        ok = f.ok;
      }

  -- The tables of runes are as documented on ASCII, and a token that is peeked has a literal or ends
  -- the input. Then the literal of the token that `next` returns and the text that is unread behind
  -- it are the text that was to come; nothing is peeked; and the token has a literal and is not EOF,
  -- or it is EOF, its literal is empty, and the input has ended.
  pub next-NextOk : (l : Lexer) → PeekOk l → NextOk l (next u l)
  unfolding next
  next-NextOk l h = next_of-NextOk l.peek l refl h

  -- `peekToken` keeps the pending text, and the token that it shows is the one that `next` returns.
  pub record PeekedOk (l : Lexer) (r : Token × Lexer) : Type 0 where
    pub shown : r.1.peek ≡ some r.0
    pub text : pending r.1 ≡ pending l
    pub ok : TokenOk r.0 r.1

  peek_token_of-PeekedOk :
      (p : Option Token) (l : Lexer)
      → l.peek ≡ p
      → PeekedTokenOk p l
      → PeekedOk l (peek_token_of u p l)
  unfolding peek_token_of
  peek_token_of-PeekedOk (some t) l e h = record { shown = e; text = refl; ok = h }
  peek_token_of-PeekedOk none l e h =
      let n = next-NextOk l (subst (λ p. PeekedTokenOk p l) (sym e) h) in
      record { shown = refl; text = sym n.text; ok = n.ok }

  pub peek_token-PeekedOk : (l : Lexer) → PeekOk l → PeekedOk l (peek_token u l)
  unfolding peek_token
  peek_token-PeekedOk l h = peek_token_of-PeekedOk l.peek l refl h

  lex_loop-literals :
      (k : ℕ) (l : Lexer)
      → l.peek ≡ none
      → length l.reader < k
      → literals (lex_loop u k l) ≡ runes l.reader
  unfolding lex_loop
  lex_loop-literals zero l e h = elim h [ ]
  lex_loop-literals (suc k) l e h =
      let f = next-Fresh l e in
      elim (Bool-cases (is_eof (next u l).0.type)) [
        | inl y ↦ elim f.ok [
          | inl (_, n) ↦ cc (y, n)
          | inr (a, b, c) ↦ rw (lex_loop, y) (sym (f.moved.text ∙ rw (a, b)))
        ]
        | inr n ↦
            rw
              (
                lex_loop,
                n,
                lex_loop-literals k (next u l).1 (f.moved.peek ∙ e)
                    (omega (arith, Fresh-shorter f n)),
              )
              (sym f.moved.text)
      ]

  -- With tables of runes that are as documented on ASCII, `lex` splits every input: the literals of
  -- its tokens, in order, are the runes of the input, and the rounds that it is given are enough.
  pub literals-lex : (input : Input) → literals (lex u input) ≡ runes input
  unfolding lex
  literals-lex input = lex_loop-literals (suc (length input)) (new_lexer input) refl (omega arith)
