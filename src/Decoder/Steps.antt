-- ===== src/Decoder/Steps.antt =====
-- The single steps of the decoder: peeking, taking a token, anchors, and reading an element.
use roundtrip.Base.{
  ℕ, ◌<◌, ◌≡◌, refl, ap, sym, ◌∙◌, inl, inr, [], ◌++◌, false, none, some, length, length-append,
  append_assoc, append-nil, subst, arith,
}
use roundtrip.Chars.{Unicode, IsUnicode}
use roundtrip.Decoder.Rules.{size, Keeps, Keeps-refl, Safe, returns}
use roundtrip.Decoder.{
  Decoder, ok, peek, next, load, value_or_panic, insert_anchor_before, insert_anchor_after,
}
use roundtrip.Lexer.Lossless.{TokenOk, PeekOk, peek_token-PeekedOk, next_shown, length_pos}
use roundtrip.Lexer.{Lexer, runes, pending, peek_token as lexer_peek}
use roundtrip.Token.{anchor, Token, token, is_eof}
use roundtrip.TokenList.Laws.{
  Has, elems_text, elems_text-append, Has-append, Has-last, Anchored, insert_before-Anchored,
  insert_after-Anchored,
}
use roundtrip.TokenList.{TokenList, push_back}

-- `t` is the token that the decoder looks at.
abbrev pub Shown : Token → Decoder → Type 0
Shown t d = (d.lexer.peek ≡ some t) × TokenOk t d.lexer

-- an element of the list
abbrev pub HasElem : ℕ → Decoder → Type 0
HasElem i d = Has d.tokens.elems i

load-Safe' :
    (i : ℕ) (d : Decoder) (t : Token)
    → PeekOk d.lexer
    → load i d ≡ ok t d
    → Safe d (λ _ _. Unit {0}) (load i d)
load-Safe' i d t r e = rw e (returns (Keeps-refl r) tt)

pub load-Safe :
    (i : ℕ) (d : Decoder) → PeekOk d.lexer → HasElem i d → Safe d (λ _ c. Unit {0}) (load i d)
load-Safe i d r (t, h) = load-Safe' i d t r (unfold load in ap (λ o. value_or_panic o d) h)

-- a new list of elements with the same text
Anchored-Keeps :
    {d : Decoder} {i : ℕ} (ts : TokenList)
    → PeekOk d.lexer
    → Anchored d.tokens.elems i ts.elems
    → Keeps d (record d { tokens = ts })
Anchored-Keeps {d} ts r a = record {
  text = ap (λ x. x ++ pending d.lexer) a.text;
  ready = r;
  shrinks = omega arith;
  elems = a.has_old;
  syntax = refl;
}

pub insert_anchor_before-Safe :
    (i : ℕ) (d : Decoder) → PeekOk d.lexer → HasElem i d → Safe d HasElem (insert_anchor_before i d)
unfolding insert_anchor_before
insert_anchor_before-Safe i d r h =
    let (ts, e, a) = insert_before-Anchored d.tokens i (token anchor []) refl h in
    rw e (returns (Anchored-Keeps ts r a) a.has_new)

pub insert_anchor_after-Safe :
    (i : ℕ) (d : Decoder) → PeekOk d.lexer → HasElem i d → Safe d HasElem (insert_anchor_after i d)
unfolding insert_anchor_after
insert_anchor_after-Safe i d r h =
    let (ts, e, a) = insert_after-Anchored d.tokens i (token anchor []) refl h in
    rw e (returns (Anchored-Keeps ts r a) a.has_new)

peek_ready : (t : Token) (l : Lexer) → l.peek ≡ some t → TokenOk t l → PeekOk l
peek_ready t l e k = rw e k

pub Shown-PeekOk : (t : Token) (d : Decoder) → Shown t d → PeekOk d.lexer
Shown-PeekOk t d (e, k) = peek_ready t d.lexer e k

module _ (u : Unicode) (law : IsUnicode u) where
  pub peek-Safe : (d : Decoder) → PeekOk d.lexer → Safe d Shown (peek u d)
  unfolding peek
  peek-Safe d r =
      let p = peek_token-PeekedOk u law d.lexer r in
      returns
        (record {
          text = ap (λ x. elems_text d.tokens.elems ++ x) p.text;
          ready = peek_ready (lexer_peek u d.lexer).0 (lexer_peek u d.lexer).1 p.shown p.ok;
          shrinks = omega (arith, ap length p.text);
          elems = λ i h. h;
          syntax = refl;
        })
        (p.shown, p.ok)

-- a token that is not the end has a literal
TokenOk-length :
    (t : Token) (l : Lexer) → TokenOk t l → is_eof t.type ≡ false → 0 < length t.literal
TokenOk-length t l (inl (n, _)) e = length_pos t.literal n
TokenOk-length t l (inr (_, _, k)) e = cc (subst (λ y. is_eof y ≡ false) k e)

-- what `next` leaves behind the token `t`
abbrev taken : Token → Decoder → Decoder
taken t d = record d {
  lexer = record d.lexer { peek = none };
  tokens = (push_back d.tokens t).1;
  current = some d.tokens.fresh;
}

pending_shown : (t : Token) (l : Lexer) → l.peek ≡ some t → pending l ≡ t.literal ++ runes l.reader
pending_shown t l e = rw e refl

taken-Keeps : (t : Token) (d : Decoder) → Shown t d → Keeps d (taken t d)
taken-Keeps t d (e, k) = record {
  text =
      ap (λ x. x ++ runes d.lexer.reader) (elems_text-append d.tokens.elems _)
      ∙ ap (λ x. (elems_text d.tokens.elems ++ x) ++ runes d.lexer.reader) (append-nil t.literal)
      ∙ append_assoc (elems_text d.tokens.elems) t.literal (runes d.lexer.reader)
      ∙ ap (λ x. elems_text d.tokens.elems ++ x) (sym (pending_shown t d.lexer e));
  ready = tt;
  shrinks = omega (
    arith,
    ap length (pending_shown t d.lexer e),
    length-append t.literal (runes d.lexer.reader),
  );
  elems = λ i h. Has-append d.tokens.elems _ i h;
  syntax = refl;
}

taken_smaller :
    (t : Token) (d : Decoder) → Shown t d → is_eof t.type ≡ false → size (taken t d) < size d
taken_smaller t d (e, k) n = omega (
  arith,
  ap length (pending_shown t d.lexer e),
  TokenOk-length t d.lexer k n,
  length-append t.literal (runes d.lexer.reader),
)

next-taken :
    (u : Unicode) (t : Token) (d : Decoder) → Shown t d → next u d ≡ ok d.tokens.fresh (taken t d)
unfolding next
next-taken u t d (e, k) =
    ap
      (λ p. ok d.tokens.fresh (record d {
        lexer = p.1;
        tokens = (push_back d.tokens p.0).1;
        current = some d.tokens.fresh;
      }))
      (next_shown u t d.lexer e)

-- `next` behind `peekToken`: the text gets shorter, but at the end of the input.
pub next-Safe :
    (u : Unicode) (t : Token) (d : Decoder)
    → Shown t d
    → Safe d (λ i c. HasElem i c × (is_eof t.type ≡ false → size c < size d)) (next u d)
next-Safe u t d s =
    rw (next-taken u t d s)
      (returns (taken-Keeps t d s) (Has-last d.tokens.elems _, taken_smaller t d s))
