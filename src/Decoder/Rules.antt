-- ===== src/Decoder/Rules.antt =====
-- A postcondition for the decoder's operations: they do not panic, have enough fuel, and keep the
-- source text, on success and on error.
use roundtrip.Base.{
  ℕ, ◌≤◌, ◌≡◌, refl, ◌∙◌, Text, ◌++◌, Bool, true, false, if◌then◌else◌, length, arith,
}
use roundtrip.Decoder.{Decoder, ParseErrorKind, Result, ok, parse_error, M, and_then, fail, pure}
use roundtrip.Lexer.Lossless.{PeekOk}
use roundtrip.Lexer.{pending}
use roundtrip.Token.{Token}
use roundtrip.TokenList.Laws.{Has, elems_text}

-- the text of the tokens taken, and the text that is left
abbrev pub source_text : Decoder → Text
source_text d = elems_text d.tokens.elems ++ pending d.lexer

abbrev pub size : Decoder → ℕ
size d = length (pending d.lexer)

-- `d'` comes behind `d`.
pub record Keeps (d d' : Decoder) : Type 0 where
  pub text : source_text d' ≡ source_text d
  pub ready : PeekOk d'.lexer
  pub shrinks : size d' ≤ size d
  pub elems : (i : ℕ) → Has d.tokens.elems i → Has d'.tokens.elems i
  pub syntax : d'.syntax ≡ d.syntax

pub Keeps-refl : {d : Decoder} → PeekOk d.lexer → Keeps d d
Keeps-refl r = record {
  text = refl;
  ready = r;
  shrinks = omega arith;
  elems = λ i h. h;
  syntax = refl;
}

pub Keeps-trans : {a b c : Decoder} → Keeps a b → Keeps b c → Keeps a c
Keeps-trans p q = record {
  text = q.text ∙ p.text;
  ready = q.ready;
  shrinks = omega arith;
  elems = λ i h. q.elems i (p.elems i h);
  syntax = q.syntax ∙ p.syntax;
}

pub data Safe {A : Type 0} (d : Decoder) (Q : A → Decoder → Type 0) : Result A → Type 0 where
  returns : {a : A} {d' : Decoder} → Keeps d d' → Q a d' → Safe d Q (ok a d')
  fails :
      {e : ParseErrorKind} {t : Token} {d' : Decoder} → Keeps d d' → Safe d Q (parse_error e t d')

pub Safe-behind :
    {A : Type 0} {c d : Decoder} {Q : A → Decoder → Type 0} {r : Result A}
    → Keeps d c
    → Safe c Q r
    → Safe d Q r
Safe-behind p (returns q x) = returns (Keeps-trans p q) x
Safe-behind p (fails q) = fails (Keeps-trans p q)

pub bind :
    {A B : Type 0} {d : Decoder} {Q : A → Decoder → Type 0} {R : B → Decoder → Type 0}
    {r : Result A} {k : A → M B}
    → Safe d Q r
    → ((a : A) (d' : Decoder) → Keeps d d' → Q a d' → Safe d' R (k a d'))
    → Safe d R (and_then r k)
bind (returns p q) next = Safe-behind p (next _ _ p q)
bind (fails p) next = fails p

pub weaken :
    {A : Type 0} {d : Decoder} {Q R : A → Decoder → Type 0} {r : Result A}
    → Safe d Q r
    → ((a : A) (d' : Decoder) → Keeps d d' → Q a d' → R a d')
    → Safe d R r
weaken (returns p q) f = returns p (f _ _ p q)
weaken (fails p) f = fails p

pub pure-Safe :
    {A : Type 0} {d : Decoder} {Q : A → Decoder → Type 0} (a : A)
    → PeekOk d.lexer
    → Q a d
    → Safe d Q (pure a d)
pure-Safe a r q = returns (Keeps-refl r) q

pub fail-Safe :
    {A : Type 0} {d : Decoder} {Q : A → Decoder → Type 0} (e : ParseErrorKind) (t : Token)
    → PeekOk d.lexer
    → Safe d Q (fail {A = A} e t d)
fail-Safe e t r = fails (Keeps-refl r)

-- a test, on the state `d`
pub branch :
    {A : Type 0} {d : Decoder} {Q : A → Decoder → Type 0} (b : Bool) (x y : M A)
    → (b ≡ true → Safe d Q (x d))
    → (b ≡ false → Safe d Q (y d))
    → Safe d Q ((if b then x else y) d)
branch true x y f g = f refl
branch false x y f g = g refl
