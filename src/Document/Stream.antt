-- ===== src/Document/Stream.antt =====
-- json/decoder.go: `Decode`, document after document.
use roundtrip.Base.{
  ◌<◌, ◌≡◌, Text, ◌∷◌, [], List, ◌++◌, true, false, ◌&&◌, length, if_elim, All, arith,
}
use roundtrip.Chars.{Unicode, IsUnicode}
use roundtrip.Decoder.{Decoder, ParseErrorKind, Result, is_trivia}
use roundtrip.Document.{
  Meta, Decoded, value, end_of_input, failed, only_trivia, is_unexpected_eof, decode_result,
  decode_meta, decode,
}
use roundtrip.Document.Preserves.{Preserved, document, rejected, decode_meta-Preserved}
use roundtrip.Lexer.Lossless.{PeekOk}
use roundtrip.Lexer.{pending}
use roundtrip.Syntax.{SyntaxOptions}
use roundtrip.Token.{Token}
use roundtrip.TokenList.Laws.{elems_text}
use roundtrip.TokenList.{Elem}

-- What `Decode` returns where `source` is still to come.
pub data Streamed (source : Text) : Decoded → Type 0 where
  one_value :
      {m : Meta} {d : Decoder}
      → elems_text m.tokens.elems ++ pending d.lexer ≡ source
      → length (pending d.lexer) < length source
      → PeekOk d.lexer
      → Streamed source (value m d)
  no_value :
      {d : Decoder}
      → elems_text d.tokens.elems ++ pending d.lexer ≡ source
      → All (λ e. is_trivia e.value d.syntax ≡ true) d.tokens.elems
      → PeekOk d.lexer
      → Streamed source (end_of_input d)
  bad_value :
      {e : ParseErrorKind} {t : Token} {d : Decoder}
      → elems_text d.tokens.elems ++ pending d.lexer ≡ source
      → PeekOk d.lexer
      → Streamed source (failed e t d)

only_trivia-All :
    (es : List Elem) (opts : SyntaxOptions)
    → only_trivia es opts ≡ true
    → All (λ e. is_trivia e.value opts ≡ true) es
only_trivia-All [] opts h = tt
only_trivia-All (e ∷ es) opts h = (ground arith, only_trivia-All es opts (ground arith))

only_trivia_of :
    (e : ParseErrorKind) (es : List Elem) (opts : SyntaxOptions)
    → (is_unexpected_eof e && only_trivia es opts) ≡ true
    → only_trivia es opts ≡ true
only_trivia_of e es opts h = ground arith

decode_result-Streamed :
    {source : Text} (r : Result Meta) → Preserved false source r → Streamed source (decode_result r)
decode_result-Streamed _ (document text ends shorter ready start end) = one_value text shorter ready
decode_result-Streamed {source} _ (rejected {e} {t} {d} text ready) =
    if_elim (Streamed source) (is_unexpected_eof e && only_trivia d.tokens.elems d.syntax)
      (λ y.
        no_value text
          (only_trivia-All d.tokens.elems d.syntax (only_trivia_of e d.tokens.elems d.syntax y))
          ready)
      λ _. bad_value text ready

-- The tables of runes are as documented on ASCII, and a token that is peeked has a literal or ends
-- the input. `Decode` neither panics nor runs out of fuel before it stores the value. The literals of
-- the tokens that it took and the text that is still to come are the text that was to come before;
-- the text is shorter behind a value; and where `io.EOF` is returned, all tokens that were taken are
-- insignificant. Behind each result the decoder can be called again.
pub decode-Streamed :
    (u : Unicode) (law : IsUnicode u) (d : Decoder)
    → PeekOk d.lexer
    → Streamed (pending d.lexer) (decode u d)
decode-Streamed u law d r =
    decode_result-Streamed (decode_meta u false d) (decode_meta-Preserved u law false d r)
