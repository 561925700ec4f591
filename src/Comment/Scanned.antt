-- ===== src/Comment/Scanned.antt =====
-- Comments read again by the lexer (json/lexer.go, `consumeMultiLineComment`).
use roundtrip.Base.{
  ℕ, ◌≡◌, refl, ap, ◌∙◌, inl, inr, Text, codes, [], ◌∷◌, ◌++◌, true, false, ◌&&◌, ◌==◌, has_prefix,
  text_eq, arith, append_assoc, All,
}
use roundtrip.Chars.{Unicode}
use roundtrip.Comment.RoundTrip.{literal_forms}
use roundtrip.Comment.{
  contains, contains_any, done, panic, comment_text, comment_literal_text, has_suffix,
}
use roundtrip.Lexer.Blocks.{Scans, closes, scan_block}
use roundtrip.Lexer.Lines.{in_line, EndsLine, scan_line}
use roundtrip.Lexer.{Lexer, runes, scan_token}
use roundtrip.Token.{comment, token}

-- no star with a slash behind it, if there is none in `s` and none across its start
closes-false :
    (prev : ℕ) (s : Text)
    → contains s (codes "*/") ≡ false
    → (prev == b'*' && has_prefix s (codes "/")) ≡ false
    → closes prev s ≡ false
unfolding contains has_prefix
closes-false prev [] h k = refl
closes-false prev (r ∷ s) h k = ground (arith, closes-false r s)

All-in_line : (s : Text) → contains_any s (codes "\r\n") ≡ false → All (λ r. in_line r ≡ true) s
unfolding contains_any
All-in_line [] h = tt
All-in_line (r ∷ s) h = ground (arith, All-in_line s)

-- After a successful `ReplaceText` with a text that does not start with a slash the new literal is
-- read as one comment token, whatever stands behind it; a line comment has to end its line.
pub scan_token-comment_literal_text :
    (u : Unicode) (lit text new rest : Text) (l : Lexer)
    → comment_literal_text lit text ≡ done new
    → has_prefix text (codes "/") ≡ false
    → (has_prefix new (codes "//") ≡ true → EndsLine rest)
    → runes l.reader ≡ new ++ rest
    → Scans (scan_token u l) (token comment new) rest
scan_token-comment_literal_text u lit text new rest l h k n e =
    elim (literal_forms lit text new h) [
      | inl (form, c) ↦ rw form (
          scan_block u l (b'*' ∷ text) rest
            (e
              ∙ ap (λ x. x ++ rest) form
              ∙ ap (λ x. b'/' ∷ b'*' ∷ x) (append_assoc text (codes "*/") rest))
            (closes-false b'*' text c k) (text ++ b'*' ∷ b'/' ∷ rest, refl))
      | inr (form, c) ↦ rw form (
          scan_line u l text rest (e ∙ ap (λ x. x ++ rest) form) (All-in_line text c)
            (n (rw form (unfold has_prefix in refl))))
    ]

-- `/*/` is read as a whole block comment, whatever stands behind it, and its text cannot be taken.
pub slash_star_slash :
    (u : Unicode) (rest : Text) (l : Lexer)
    → runes l.reader ≡ codes "/*/" ++ rest
    → Scans (scan_token u l) (token comment (codes "/*/")) rest
      × (comment_text (codes "/*/") ≡ panic)
slash_star_slash u rest l e = (
  scan_block u l [] rest e refl (b'/' ∷ rest, refl),
  unfold comment_text has_prefix has_suffix text_eq in refl,
)
