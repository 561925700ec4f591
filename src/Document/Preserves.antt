-- ===== src/Document/Preserves.antt =====
-- json/decoder.go: a document's tokens spell its source, and a stream of documents goes forward.
use roundtrip.Base.{
  ℕ, ◌<◌, ◌≡◌, refl, ap, ◌∙◌, Text, [], ◌++◌, Bool, true, false, not, length, ◌⊎◌, inl, inr, arith,
}
use roundtrip.Chars.{Unicode, IsUnicode}
use roundtrip.Decoder.Rules.{size, Safe, returns, fails, bind, branch, pure-Safe, fail-Safe}
use roundtrip.Decoder.Scalars.{consume_peek-Safe}
use roundtrip.Decoder.Steps.{Shown, Shown-PeekOk}
use roundtrip.Decoder.{
  start_of, end_of, Decoder, ParseErrorKind, unexpected_token, Result, ok, parse_error,
}
use roundtrip.Document.{Meta, start_tokens, parse_value, require_end, decode_meta}
use roundtrip.Lexer.Lossless.{PeekOk}
use roundtrip.Lexer.{pending}
use roundtrip.Parser.Safe.{parse-Safe}
use roundtrip.Token.{Token, is_eof}
use roundtrip.TokenList.Laws.{Has, elems_text}

-- A token of type EOF is shown when the whole text was taken.
Shown-eof : (t : Token) (d : Decoder) → Shown t d → is_eof t.type ≡ true → pending d.lexer ≡ []
Shown-eof t d (e, inl (_, n)) h = cc
Shown-eof t d (e, inr (a, b, c)) h = rw (e, a, b) refl

-- What is returned for a document whose text is `source`, `at_end` where the input has to end
-- behind the value.
pub data Preserved (at_end : Bool) (source : Text) : Result Meta → Type 0 where
  document :
      {m : Meta} {d : Decoder}
      → elems_text m.tokens.elems ++ pending d.lexer ≡ source
      → (at_end ≡ false) ⊎ (pending d.lexer ≡ [])
      → length (pending d.lexer) < length source
      → PeekOk d.lexer
      → Has m.tokens.elems (start_of m.root)
      → Has m.tokens.elems (end_of m.root)
      → Preserved at_end source (ok m d)
  rejected :
      {e : ParseErrorKind} {t : Token} {d : Decoder}
      → elems_text d.tokens.elems ++ pending d.lexer ≡ source
      → PeekOk d.lexer
      → Preserved at_end source (parse_error e t d)

or_empty : (b : Bool) {s : Text} → (b ≡ true → s ≡ []) → (b ≡ false) ⊎ (s ≡ [])
or_empty true h = inr (h refl)
or_empty false h = inl refl

module _ (u : Unicode) (law : IsUnicode u) where
  require_end-Safe :
      (at_end : Bool) (d : Decoder)
      → PeekOk d.lexer
      → Safe d (λ _ c. at_end ≡ true → pending c.lexer ≡ []) (require_end u at_end d)
  unfolding require_end
  require_end-Safe false d r = pure-Safe tt r λ h. cc
  require_end-Safe true d r = consume_peek-Safe u law _ d r λ t c p s.
      branch (not (is_eof t.type)) _ _ (λ _. fail-Safe unexpected_token t (Shown-PeekOk t c s))
        λ y. pure-Safe tt (Shown-PeekOk t c s) λ _. Shown-eof t c s (ground arith)

  record Complete (at_end : Bool) (bound : ℕ) (m : Meta) (c : Decoder) : Type 0 where
    same : m.tokens ≡ c.tokens
    ends : at_end ≡ true → pending c.lexer ≡ []
    shorter : size c < bound
    start : Has m.tokens.elems (start_of m.root)
    end : Has m.tokens.elems (end_of m.root)

  decode_meta-Safe :
      (at_end : Bool) (d : Decoder)
      → PeekOk d.lexer
      → Safe (start_tokens d) (Complete at_end (size d)) (decode_meta u at_end d)
  unfolding decode_meta parse_value
  decode_meta-Safe at_end d r =
      bind (parse-Safe u law _ (start_tokens d) r (omega arith)) λ root b p w.
        bind (require_end-Safe at_end b p.ready) λ _ c q ends. pure-Safe _ q.ready (record {
          same = refl;
          ends = ends;
          shorter = omega (arith, w.smaller, q.shrinks);
          start = q.elems _ w.start;
          end = q.elems _ w.end;
        })

  preserved :
      (at_end : Bool) (d : Decoder) {r : Result Meta}
      → Safe (start_tokens d) (Complete at_end (size d)) r
      → Preserved at_end (pending d.lexer) r
  preserved at_end d (returns {a = m} {d' = c} k q) =
      document (ap (λ ts. elems_text ts.elems ++ pending c.lexer) q.same ∙ k.text)
        (or_empty at_end q.ends) q.shorter k.ready q.start q.end
  preserved at_end d (fails k) = rejected k.text k.ready

  -- The tables of runes are as documented on ASCII, and a token that is peeked has a literal or ends
  -- the input; the decoder is in any such state, under any syntax options. `decodeMeta` neither
  -- panics nor runs out of fuel. If it returns a document, then the literals of the document's tokens
  -- and the text that is still to come are, in this order, the text that was to come before; with
  -- `requireEOF` nothing is still to come; the text has got shorter; and the first and the last
  -- element of the root node are in the document's token list. If it returns an error, then the
  -- tokens that were taken and the text that is still to come are the text that was to come before.
  pub decode_meta-Preserved :
      (at_end : Bool) (d : Decoder)
      → PeekOk d.lexer
      → Preserved at_end (pending d.lexer) (decode_meta u at_end d)
  decode_meta-Preserved at_end d r = preserved at_end d (decode_meta-Safe at_end d r)
