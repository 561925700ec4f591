-- ===== src/Lexer/Scan.antt =====
-- json/lexer.go, `scanToken` and `next`: one token.
use roundtrip.Base.{
  ℕ, ◌≡◌, ◌≢◌, refl, ◌⊎◌, inl, inr, ap, sym, ◌∙◌, Text, [], ◌∷◌, Bool, true, false, none, not, ◌||◌,
  ◌==◌, subst, arith, if_elim,
}
use roundtrip.Chars.{Unicode, IsUnicode, is_newline, is_horizontal_space, is_number_delimiter}
use roundtrip.Lexer.Consumes.{
  Scanned, Scanned-trans, Consumed, multi_line_loop-Consumed, string_loop-Consumed,
}
use roundtrip.Lexer.Moves.{Moved, read_outcome, peek_outcome, Rejects, TookRun, take_run-TookRun}
use roundtrip.Lexer.{
  Lexer, assert_in, runes, take_run, fuel_of, tokenize, tokenize_run, consume_multi_line_comment,
  consume_string, consume_single, identifier_rune, scan_class, scan_slash, scan_rune, scan_peeked,
  scan_token,
}
use roundtrip.Token.{
  TokenType, eof, illegal, identifier, number, colon, comma, delim, whitespace, newline, comment,
  Token, is_eof,
}

-- the next rune of the input
abbrev Starts : Lexer → ℕ → Type 0
Starts l r = (s : Text) × (runes l.reader ≡ r ∷ s)

Consumed-Scanned :
    {l : Lexer} (r : ℕ) {t : Token × Lexer} → Starts l r → Consumed l [] t → Scanned l t
Consumed-Scanned {l} r {t} (s, e) c = record {
  moved = rw c.literal c.moved;
  literal_ne_nil = c.progress r s e;
  not_eof = c.not_eof;
}

consume_single-Scanned :
    (typ : TokenType) (r : ℕ) (l : Lexer)
    → Starts l r
    → is_eof typ ≡ false
    → Scanned l (consume_single typ l)
unfolding consume_single
consume_single-Scanned typ r l (s, st) n = elim (read_outcome l) [
  | inl (l', e, d) ↦ absurd (cc (ap runes d.nothing, st))
  | inr (c, l', e, d) ↦
      rw (e, consume_single) (record { moved = d.moved; literal_ne_nil = λ z. cc; not_eof = n })
]

-- A run whose first rune is accepted is not empty.
TookRun-ne-nil :
    (accept : ℕ → Bool) (r : ℕ) {l : Lexer} (t : Text × Bool × Lexer)
    → Starts l r
    → accept r ≡ true
    → TookRun accept l [] t
    → t.0 ≢ []
TookRun-ne-nil accept r {l} t (s, st) y k e =
    absurd (go t.2 k.run (sym k.literal ∙ e) k.moved k.maximal)
  where
    go :
        (l' : Lexer) (run : Text) → run ≡ [] → Moved l run l' → Rejects accept (runes l'.reader) → ⊥
    go l' [] z m x = cc (subst (Rejects accept) (sym m.text ∙ st) x, y)
    go l' (c ∷ cs) z m x = cc

tokenize-Scanned :
    (typ : TokenType) (accept : ℕ → Bool) (r : ℕ) (l : Lexer)
    → is_eof typ ≡ false
    → Starts l r
    → accept r ≡ true
    → Scanned l (tokenize typ (take_run accept l))
tokenize-Scanned typ accept r l n st y =
    let k = take_run-TookRun accept l in
    record {
      moved = rw k.literal k.moved;
      literal_ne_nil = TookRun-ne-nil accept r (take_run accept l) st y k;
      not_eof = n;
    }

tokenize_run_nonempty :
    (typ : TokenType) (t : Text × Bool × Lexer) → t.0 ≢ [] → tokenize_run typ t ≡ tokenize typ t
unfolding tokenize_run
tokenize_run_nonempty typ ([], b, l) h = absurd (h refl)
tokenize_run_nonempty typ (c ∷ cs, b, l) h = refl

tokenize_run-Scanned :
    (typ : TokenType) (accept : ℕ → Bool) (r : ℕ) (l : Lexer)
    → is_eof typ ≡ false
    → Starts l r
    → accept r ≡ true
    → Scanned l (tokenize_run typ (take_run accept l))
tokenize_run-Scanned typ accept r l n st y =
    rw
      (tokenize_run_nonempty typ (take_run accept l)
        (TookRun-ne-nil accept r (take_run accept l) st y (take_run-TookRun accept l)))
      (tokenize-Scanned typ accept r l n st y)

consume_string-Scanned : (quote r : ℕ) (l : Lexer) → Starts l r → Scanned l (consume_string quote l)
unfolding consume_string
consume_string-Scanned quote r l st =
    Consumed-Scanned r st (string_loop-Consumed quote (fuel_of l) [] l (omega arith))

consume_multi-Scanned : (r : ℕ) (l : Lexer) → Starts l r → Scanned l (consume_multi_line_comment l)
unfolding consume_multi_line_comment
consume_multi-Scanned r l st =
    Consumed-Scanned r st (multi_line_loop-Consumed (fuel_of l) [] 0 l (omega arith))

-- `Peek` forgets the rune that could be put back, and moves nothing.
Moved_forgets : (l : Lexer) → Moved l [] (record l { last = none })
Moved_forgets l = record {
  text = refl;
  count = omega arith;
  peek = refl;
  utf8 = λ v. v;
  placed = λ v. refl;
}

module _ (u : Unicode) (law : IsUnicode u) where
  number-not-delimiter :
      (r : ℕ)
      → (is_newline r || r == b',' || r == b']' || r == b'}' || r == b':' || r == b'[' || r == b'{')
        ≡ false
      → is_horizontal_space u r ≡ false
      → u.is_number r ≡ true
      → not (is_number_delimiter u r) ≡ true
  unfolding is_number_delimiter is_horizontal_space is_newline
  number-not-delimiter r h n y = ground (arith, law.number_ascii 47 (omega arith))

  sign-not-delimiter :
      (r : ℕ) → (r == b'-' || r == b'+' || r == b'.') ≡ true → not (is_number_delimiter u r) ≡ true
  unfolding is_number_delimiter is_horizontal_space is_newline
  sign-not-delimiter r y = ground (
    arith,
    law.space_ascii 45 (omega arith),
    law.space_ascii 43 (omega arith),
    law.space_ascii 46 (omega arith),
  )

  -- the second `switch`, for a rune that the first one leaves
  scan_class-Scanned :
      (r : ℕ) (l : Lexer)
      → Starts l r
      → (is_newline r || r == b',' || r == b']' || r == b'}' || r == b':' || r == b'[' || r == b'{')
        ≡ false
      → Scanned l (scan_class u r l)
  unfolding scan_class
  scan_class-Scanned r l st h =
      if_elim (Scanned l) (is_horizontal_space u r)
        (λ y. tokenize_run-Scanned whitespace (is_horizontal_space u) r l refl st y)
        λ n.
          if_elim (Scanned l) (u.is_number r)
            (λ y. tokenize-Scanned number _ r l refl st (number-not-delimiter r h n y))
            λ m.
              if_elim (Scanned l) (u.is_letter r || r == b'_' || r == b'$')
                (λ y.
                  tokenize-Scanned identifier (identifier_rune u) r l refl st
                    (unfold identifier_rune in ground arith))
                λ o. consume_single-Scanned illegal r l st refl

  scan_slash-Scanned :
      (r : ℕ) (l : Lexer) → Starts l r → (r == b'/') ≡ true → Scanned l (scan_slash u r l)
  unfolding scan_slash
  scan_slash-Scanned r l (s, st) h =
      let here : Moved l [] (record l { last = none }) = Moved_forgets l in
      Scanned-trans here (
        if_elim (Scanned (record l { last = none })) (assert_in l.reader b'/' b'/')
          (λ _. tokenize-Scanned comment _ r (record l { last = none }) refl (s, st) (ground arith))
          λ _.
            if_elim (Scanned (record l { last = none })) (assert_in l.reader b'/' b'*')
              (λ _. consume_multi-Scanned r (record l { last = none }) (s, st))
              λ _.
                scan_class-Scanned r (record l { last = none }) (s, st)
                  (unfold is_newline in ground arith))

  scan_rune-Scanned : (r : ℕ) (l : Lexer) → Starts l r → Scanned l (scan_rune u r l)
  unfolding scan_rune
  scan_rune-Scanned r l st =
      if_elim (Scanned l) (r == b':') (λ _. consume_single-Scanned colon r l st refl)
        λ n1.
          if_elim (Scanned l) (r == b',') (λ _. consume_single-Scanned comma r l st refl)
            λ n2.
              if_elim (Scanned l) (r == b'{' || r == b'}' || r == b'[' || r == b']')
                (λ _. consume_single-Scanned delim r l st refl)
                λ n3.
                  if_elim (Scanned l) (r == b'/') (λ y. scan_slash-Scanned r l st y)
                    λ n4.
                      if_elim (Scanned l) (r == b'\"' || r == b'\'')
                        (λ _. consume_string-Scanned r r l st)
                        λ n5.
                          if_elim (Scanned l) (r == b'-' || r == b'+' || r == b'.')
                            (λ y. tokenize-Scanned number _ r l refl st (sign-not-delimiter r y))
                            λ n6.
                              if_elim (Scanned l)
                                (r == b'\n' || r == b'\r' || r == 0x2028 || r == 0x2029)
                                (λ y.
                                  tokenize_run-Scanned newline is_newline r l refl st
                                    (unfold is_newline in y))
                                λ n7. scan_class-Scanned r l st (unfold is_newline in ground arith)

  -- `scanToken` ends only with the input; any other token is the runes that the lexer moved over.
  abbrev pub ScanOutcome : Lexer → Token × Lexer → Type 0
  ScanOutcome l r =
      Scanned l r ⊎ ((l.reader ≡ []) × (r.0.type ≡ eof) × (r.0.literal ≡ []) × Moved l [] r.1)

  pub scan_token-outcome : (l : Lexer) → ScanOutcome l (scan_token u l)
  unfolding scan_token scan_peeked
  scan_token-outcome l = elim (peek_outcome l) [
    | inl (l', e, d) ↦ rw e (inr (d.nothing, refl, refl, d.moved))
    | inr (r, l', e, m, same, at, (s, st)) ↦
        rw e (inl (Scanned-trans m (scan_rune-Scanned r l' (s, sym m.text ∙ st))))
  ]
