-- ===== src/Lexer/Blocks.antt =====
-- json/lexer.go, `consumeMultiLineComment` behind `scanToken`: where a block comment ends, and line
-- comments.
use roundtrip.Base.{
  ℕ, zero, suc, ◌<◌, ◌≡◌, refl, ap, sym, ◌∙◌, inl, inr, Text, codes, [], ◌∷◌, ◌++◌, Bool, false,
  ◌&&◌, ◌||◌, ◌==◌, length, arith, append_assoc, subst, none,
}
use roundtrip.Chars.{Unicode}
use roundtrip.Lexer.Moves.{read_outcome, peek_outcome}
use roundtrip.Lexer.{
  Input, Lexer, got, read_rune, runes, multi_line_loop, consume_multi_line_comment, scan_token,
  scan_peeked, peek_rune, scan_rune, scan_slash, assert_in, fuel_of,
}
use roundtrip.Token.{comment, Token, token}

-- `scanToken` returns this token and leaves this text unread.
abbrev pub Scans : Token × Lexer → Token → Text → Type 0
Scans r t rest = (l : Lexer) × (r ≡ (t, l)) × (runes l.reader ≡ rest)

-- There is a `*` with a `/` behind it, `prev` being the rune before `s`.
abbrev pub closes : ℕ → Text → Bool
closes prev [] = false
closes prev (r ∷ s) = prev == b'*' && r == b'/' || closes r s

length-runes : (rs : Input) → length (runes rs) ≡ length rs
length-runes [] = refl
length-runes (x ∷ rs) = ap suc (length-runes rs)

-- Reading where the text is known.
read_known :
    (l : Lexer) (r : ℕ) (s : Text)
    → runes l.reader ≡ r ∷ s
    → (l' : Lexer) × (read_rune l ≡ got r l')
      × (runes l'.reader ≡ s)
      × (length l.reader ≡ suc (length l'.reader))
read_known l r s e = elim (read_outcome l) [
  | inl (l', x, d) ↦ absurd (cc (ap runes d.nothing, e))
  | inr (c, l', x, d) ↦
      let same : c ≡ r = cc (d.moved.text, e) in
      (l', x ∙ ap (λ y. got y l') same, cc (d.moved.text, e), omega (arith, d.moved.count))
]

-- The loop goes on to the first `*` with a `/` behind it.
multi_line_loop-Scans :
    (body : Text) (k : ℕ) (lit rest : Text) (prev : ℕ) (l : Lexer)
    → length l.reader < k
    → runes l.reader ≡ body ++ b'*' ∷ b'/' ∷ rest
    → closes prev body ≡ false
    → Scans (multi_line_loop k lit prev l) (token comment (lit ++ (body ++ codes "*/"))) rest
unfolding multi_line_loop
multi_line_loop-Scans body zero lit rest prev l h e c = elim h [ ]
multi_line_loop-Scans [] (suc zero) lit rest prev l h e c =
    absurd (omega (arith, length-runes l.reader, ap length e))
multi_line_loop-Scans [] (suc (suc k)) lit rest prev l h e c =
    let (l1, x1, e1, _) = read_known l b'*' (b'/' ∷ rest) e in
    let (l2, x2, e2, _) = read_known l1 b'/' rest e1 in
    let open_ : (prev == b'*' && false) ≡ false = ground arith in
    (
      l2,
      rw (x1, multi_line_loop, open_, x2)
          (ap (λ y. (token comment y, l2)) (append_assoc lit (b'*' ∷ []) (b'/' ∷ []))),
      e2,
    )
multi_line_loop-Scans (b ∷ body) (suc k) lit rest prev l h e c =
    let (l', x, text, n) = read_known l b (body ++ b'*' ∷ b'/' ∷ rest) e in
    let open_ : (prev == b'*' && b == b'/') ≡ false = ground arith in
    rw (x, multi_line_loop, open_)
      (subst (λ y. Scans (multi_line_loop k (lit ++ b ∷ []) b l') (token comment y) rest)
        (append_assoc lit (b ∷ []) (body ++ codes "*/"))
        (multi_line_loop-Scans body k (lit ++ b ∷ []) rest b l' (omega (arith, n)) text
          (ground arith)))

-- a lexer before `a` and `b`
pub assert_known :
    (rs : Input) (a b c d : ℕ) (s : Text)
    → runes rs ≡ a ∷ b ∷ s
    → assert_in rs c d ≡ (a == c && b == d)
assert_known [] a b c d s e = cc
assert_known (x ∷ []) a b c d s e = cc
assert_known ((x, m) ∷ (y, n) ∷ rs) a b c d s e =
    let p : x ≡ a = cc e in let q : y ≡ b = cc e in rw (p, q)

module _ (u : Unicode) where
  scan_token_lem : (l : Lexer) → scan_token u l ≡ scan_peeked u (peek_rune l)
  unfolding scan_token
  scan_token_lem l = refl

  pub scan_rune_slash : (l : Lexer) → scan_rune u b'/' l ≡ scan_slash u b'/' l
  unfolding scan_rune
  scan_rune_slash l = refl

  -- where the next rune is known, `scanToken` is `scan_rune` on a lexer before the same text
  pub scan_known :
      (l : Lexer) (r : ℕ) (s : Text)
      → runes l.reader ≡ r ∷ s
      → (m : Lexer) × (runes m.reader ≡ runes l.reader) × (scan_token u l ≡ scan_rune u r m)
  unfolding scan_peeked
  scan_known l r s e = elim (peek_outcome l) [
    | inl (l', x, d) ↦ absurd (cc (ap runes d.nothing, e))
    | inr (c, l', x, m, same, at, (s', st)) ↦
        let known : c ≡ r = cc (st, e) in
        (
          l',
          ap runes same,
          scan_token_lem l ∙ ap (scan_peeked u) x ∙ ap (λ y. scan_rune u y l') known,
        )
  ]

  scan_slash_block :
      (l : Lexer) (s : Text)
      → runes l.reader ≡ b'/' ∷ b'*' ∷ s
      → scan_slash u b'/' l ≡ consume_multi_line_comment (record l { last = none })
  unfolding scan_slash
  scan_slash_block l s e =
      rw (
        assert_known l.reader b'/' b'*' b'/' b'/' s e,
        assert_known l.reader b'/' b'*' b'/' b'*' s e,
      )

  -- A block comment ends at the first star with a slash behind it; the opening star counts.
  pub scan_block :
      (l : Lexer) (body rest : Text)
      → runes l.reader ≡ codes "/" ++ (body ++ b'*' ∷ b'/' ∷ rest)
      → closes b'/' body ≡ false
      → ((s : Text) × (body ++ b'*' ∷ b'/' ∷ rest ≡ b'*' ∷ s))
      → Scans (scan_token u l) (token comment (codes "/" ++ (body ++ codes "*/"))) rest
  scan_block l body rest e c (s, st) =
      let (m, same, x) = scan_known l b'/' (body ++ b'*' ∷ b'/' ∷ rest) e in
      let text : runes m.reader ≡ b'/' ∷ b'*' ∷ s = same ∙ e ∙ ap (◌∷◌ b'/') st in
      let all = x ∙ scan_rune_slash m ∙ scan_slash_block m s text in
      subst (λ y. Scans y (token comment (codes "/" ++ (body ++ codes "*/"))) rest) (sym all)
        (unfold consume_multi_line_comment in
          multi_line_loop-Scans (b'/' ∷ body) (fuel_of m) [] rest 0 (record m { last = none })
            (omega arith) (same ∙ e) c)
