-- ===== src/Lexer/Lines.antt =====
-- json/lexer.go, `consumeComment` behind `scanToken`: a line comment runs to the end of its line.
use roundtrip.Base.{
  ℕ, ◌≡◌, refl, ap, sym, ◌∙◌, Text, codes, [], ◌∷◌, ◌++◌, Bool, true, false, not, ◌||◌, ◌==◌, All,
  subst, none,
}
use roundtrip.Chars.{Unicode}
use roundtrip.Lexer.Blocks.{Scans, scan_known, scan_rune_slash, assert_known}
use roundtrip.Lexer.Moves.{take_run-TookRun, Rejects}
use roundtrip.Lexer.{Lexer, runes, take_run, consume_comment, scan_token, scan_slash}
use roundtrip.Token.{comment, token}

abbrev pub in_line : ℕ → Bool
in_line r = not (r == b'\n' || r == b'\r')

-- a text that is empty or starts with a line break
abbrev pub EndsLine : Text → Type 0
EndsLine = Rejects in_line

-- The longest accepted prefix is determined.
span_unique :
    (accept : ℕ → Bool) (a b c d : Text)
    → All (λ r. accept r ≡ true) a
    → Rejects accept b
    → All (λ r. accept r ≡ true) c
    → Rejects accept d
    → a ++ b ≡ c ++ d
    → (a ≡ c) × (b ≡ d)
span_unique accept [] b [] d pa pb pc pd e = (refl, e)
span_unique accept [] [] (x ∷ c) d pa pb pc pd e = cc
span_unique accept [] (y ∷ b) (x ∷ c) d pa pb pc pd e =
    let same : y ≡ x = cc e in cc (subst (λ z. accept z ≡ false) same pb, pc.0)
span_unique accept (x ∷ a) b [] [] pa pb pc pd e = cc
span_unique accept (x ∷ a) b [] (y ∷ d) pa pb pc pd e =
    let same : x ≡ y = cc e in cc (subst (λ z. accept z ≡ true) same pa.0, pd)
span_unique accept (x ∷ a) b (y ∷ c) d pa pb pc pd e =
    let same : x ≡ y = cc e in
    let (p, q) = span_unique accept a b c d pa.1 pb pc.1 pd (cc e) in (cc (same, p), q)

module _ (u : Unicode) where
  scan_slash_line :
      (l : Lexer) (s : Text)
      → runes l.reader ≡ b'/' ∷ b'/' ∷ s
      → scan_slash u b'/' l ≡ consume_comment u (record l { last = none })
  unfolding scan_slash
  scan_slash_line l s e = rw (assert_known l.reader b'/' b'/' b'/' b'/' s e)

  consume_comment-Scans :
      (m : Lexer) (body rest : Text)
      → runes m.reader ≡ body ++ rest
      → All (λ r. in_line r ≡ true) body
      → EndsLine rest
      → Scans (consume_comment u m) (token comment body) rest
  consume_comment-Scans m body rest e a n =
      let k = take_run-TookRun in_line m in
      let (p, q) =
        span_unique in_line k.run (runes (take_run in_line m).2.reader) body rest k.accepted
          k.maximal a n (sym k.moved.text ∙ e) in
      (
        (take_run in_line m).2,
        ap (λ y. (token comment y, (take_run in_line m).2)) (k.literal ∙ p),
        q,
      )

  pub scan_line :
      (l : Lexer) (body rest : Text)
      → runes l.reader ≡ codes "//" ++ (body ++ rest)
      → All (λ r. in_line r ≡ true) body
      → EndsLine rest
      → Scans (scan_token u l) (token comment (codes "//" ++ body)) rest
  scan_line l body rest e a n =
      let (m, same, x) = scan_known u l b'/' (b'/' ∷ body ++ rest) e in
      let all = x ∙ scan_rune_slash u m ∙ scan_slash_line m (body ++ rest) (same ∙ e) in
      subst (λ y. Scans y (token comment (codes "//" ++ body)) rest) (sym all)
        (consume_comment-Scans (record m { last = none }) (codes "//" ++ body) rest (same ∙ e)
          (refl, (refl, a)) n)
