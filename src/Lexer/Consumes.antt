-- ===== src/Lexer/Consumes.antt =====
-- json/lexer.go: every consumer moves the lexer over just the literal of its token.
use roundtrip.Base.{
  ℕ, zero, suc, ◌<◌, ◌≡◌, ◌≢◌, refl, inl, inr, ap, sym, ◌∙◌, Text, [], ◌∷◌, ◌++◌, false, ◌&&◌, ◌==◌,
  length, append_assoc, append-nil, Bool-cases, arith,
}
use roundtrip.Lexer.{Lexer, runes, multi_line_loop, string_loop, nonempty}
use roundtrip.Lexer.Moves.{Moved, Moved-trans, read_outcome}
use roundtrip.Token.{TokenType, illegal, string, comment, Token, token, is_eof}

-- A token that is not the end: the lexer moved over its literal, which is not empty.
pub record Scanned (l : Lexer) (r : Token × Lexer) : Type 0 where
  pub moved : Moved l r.0.literal r.1
  pub literal_ne_nil : r.0.literal ≢ []
  pub not_eof : is_eof r.0.type ≡ false

pub Scanned-trans : {l m : Lexer} {r : Token × Lexer} → Moved l [] m → Scanned m r → Scanned l r
Scanned-trans p s = record {
  moved = Moved-trans p s.moved;
  literal_ne_nil = s.literal_ne_nil;
  not_eof = s.not_eof;
}

-- A loop of a consumer, entered with `lit` already read.
pub record Consumed (l : Lexer) (lit : Text) (r : Token × Lexer) : Type 0 where
  pub run : Text
  pub literal : r.0.literal ≡ lit ++ run
  pub moved : Moved l run r.1
  pub progress : (c : ℕ) (s : Text) → runes l.reader ≡ c ∷ s → r.0.literal ≢ []
  pub not_eof : is_eof r.0.type ≡ false

append-ne-nil : (lit : Text) (c : ℕ) (s : Text) → lit ++ c ∷ s ≢ []
append-ne-nil [] c s = λ e. cc
append-ne-nil (x ∷ lit) c s = λ e. cc

-- the loop ends with the input
Consumed-at_end :
    {l l' : Lexer} (lit : Text) (t : TokenType)
    → Moved l [] l'
    → l.reader ≡ []
    → is_eof t ≡ false
    → Consumed l lit (token t lit, l')
Consumed-at_end lit t m e n = record {
  run = [];
  literal = sym (append-nil lit);
  moved = m;
  progress = λ c s h. absurd (cc (ap runes e, h));
  not_eof = n;
}

-- the loop ends behind the runes `s`
Consumed-done :
    {l l' : Lexer} (lit : Text) (c : ℕ) (s : Text) (t : TokenType)
    → Moved l (c ∷ s) l'
    → is_eof t ≡ false
    → Consumed l lit (token t (lit ++ c ∷ s), l')
Consumed-done lit c s t m n = record {
  run = c ∷ s;
  literal = refl;
  moved = m;
  progress = λ _ _ _. append-ne-nil lit c s;
  not_eof = n;
}

-- the loop goes on behind the runes `s`
Consumed-more :
    {l l' : Lexer} (lit : Text) (c : ℕ) (s : Text) {r : Token × Lexer}
    → Moved l (c ∷ s) l'
    → Consumed l' (lit ++ c ∷ s) r
    → Consumed l lit r
Consumed-more lit c s m d = record {
  run = c ∷ s ++ d.run;
  literal = d.literal ∙ append_assoc lit (c ∷ s) d.run;
  moved = Moved-trans m d.moved;
  progress = λ _ _ _ e.
      append-ne-nil lit c (s ++ d.run) (sym (d.literal ∙ append_assoc lit (c ∷ s) d.run) ∙ e);
  not_eof = d.not_eof;
}

pub multi_line_loop-Consumed :
    (k : ℕ) (lit : Text) (prev : ℕ) (l : Lexer)
    → length l.reader < k
    → Consumed l lit (multi_line_loop k lit prev l)
unfolding multi_line_loop
multi_line_loop-Consumed zero lit prev l h = elim h [ ]
multi_line_loop-Consumed (suc k) lit prev l h = elim (read_outcome l) [
  | inl (l', e, d) ↦ rw (e, multi_line_loop) (Consumed-at_end lit illegal d.moved d.nothing refl)
  | inr (r, l', e, d) ↦ elim (Bool-cases (prev == b'*' && r == b'/')) [
    | inl y ↦ rw (e, multi_line_loop, y) (Consumed-done lit r [] comment d.moved refl)
    | inr n ↦
        rw (e, multi_line_loop, n)
          (Consumed-more lit r [] d.moved
            (multi_line_loop-Consumed k (lit ++ r ∷ []) r l' (omega (arith, d.moved.count))))
  ]
]

pub string_loop-Consumed :
    (quote k : ℕ) (lit : Text) (l : Lexer)
    → length l.reader < k
    → Consumed l lit (string_loop quote k lit l)
unfolding string_loop
string_loop-Consumed quote zero lit l h = elim h [ ]
string_loop-Consumed quote (suc k) lit l h = elim (read_outcome l) [
  | inl (l', e, d) ↦ rw (e, string_loop) (Consumed-at_end lit string d.moved d.nothing refl)
  | inr (r, l', e, d) ↦ elim (Bool-cases (r == b'\\')) [
    | inl y ↦ elim (read_outcome l') [
      | inl (l'', e', d') ↦
          rw (e, string_loop, y, e')
            (Consumed-done lit r [] string (Moved-trans d.moved d'.moved) refl)
      | inr (s, l'', e', d') ↦
          rw (e, string_loop, y, e')
            (Consumed-more lit r (s ∷ []) (Moved-trans d.moved d'.moved) (
              string_loop-Consumed quote k (lit ++ r ∷ s ∷ []) l''
                (omega (arith, d.moved.count, d'.moved.count))))
    ]
    | inr n ↦ elim (Bool-cases (r == quote && nonempty lit)) [
      | inl y ↦ rw (e, string_loop, n, y) (Consumed-done lit r [] string d.moved refl)
      | inr m ↦
          rw (e, string_loop, n, m)
            (Consumed-more lit r [] d.moved
              (string_loop-Consumed quote k (lit ++ r ∷ []) l' (omega (arith, d.moved.count))))
    ]
  ]
]
