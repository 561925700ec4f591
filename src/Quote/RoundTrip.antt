-- ===== src/Quote/RoundTrip.antt =====
-- Reading a quoted string gives the string back.
use roundtrip.Base.{
  ℕ, zero, suc, ◌/◌, ◌%◌, ◌≤◌, ◌<◌, ◌≡◌, refl, ap, sym, ◌∙◌, ◌⊎◌, inl, inr, Text, [], ◌∷◌, ◌++◌,
  List, Bool, false, not, ◌&&◌, ◌||◌, ◌==◌, ltb, leb, if◌then◌else◌, Option, none, some, length,
  length-append, append_assoc, append-nil, if_elim, arith,
}
use roundtrip.Quote.Digits.{hex_digits_byte}
use roundtrip.Quote.{
  StringOptions, string_options, hex_digits, hex_digit, unicode_rune, escape, escape_at,
  escape_char, continued, line_continuation, unquote_step, unquote_loop, before_last, between,
  unquote_body, or_else, unquote_string, is_safe, escape_ascii, quote_rune, quote_piece,
  quote_runes, append_string, append_text, pieces, Piece, rune, invalid_byte, rune_error,
}
use roundtrip.Syntax.{SyntaxOptions}

-- A round of the loop reads the first part of `q`, with anything behind it, as the rune `r`.
abbrev Reads : StringOptions → Text → ℕ → Type 0
Reads opts [] r = ⊥
Reads opts (c ∷ q) r = (rest : Text) → unquote_step opts c (q ++ rest) ≡ some (r ∷ [], rest)

-- a backslash before a character that continues no line
escape_plain :
    (opts : StringOptions) (c : ℕ) (s : Text)
    → (c == b'\n' || c == b'\r' || c == 0x2028 || c == 0x2029) ≡ false
    → escape opts (c ∷ s) ≡ escape_char opts c s
unfolding escape escape_at continued line_continuation
escape_plain opts c [] h = ground arith
escape_plain opts c (d ∷ s) h = ground arith

unquote_step_escape :
    (opts : StringOptions) (c : ℕ) (s : Text)
    → (c == b'\n' || c == b'\r' || c == 0x2028 || c == 0x2029) ≡ false
    → unquote_step opts b'\\' (c ∷ s) ≡ escape_char opts c s
unquote_step_escape opts c s h = backslash ∙ escape_plain opts c s h
  where
    backslash : unquote_step opts b'\\' (c ∷ s) ≡ escape opts (c ∷ s)
    backslash = unfold unquote_step in refl

-- a character that stands for the rune `r` behind a backslash
char-Reads :
    (opts : StringOptions) (c r : ℕ)
    → (c == b'\n' || c == b'\r' || c == 0x2028 || c == 0x2029) ≡ false
    → ((s : Text) → escape_char opts c s ≡ some (r ∷ [], s))
    → Reads opts (b'\\' ∷ c ∷ []) r
char-Reads opts c r h e = λ rest. unquote_step_escape opts c rest h ∙ e rest

-- four hexadecimal digits that stand for a rune outside the surrogates
unicode-Reads :
    (opts : StringOptions) (a b c d r : ℕ)
    → ((s : Text) → hex_digits 4 0 (a ∷ b ∷ c ∷ d ∷ s) ≡ some (r, s))
    → (leb 0xd800 r && leb r 0xdfff) ≡ false
    → Reads opts (b'\\' ∷ b'u' ∷ a ∷ b ∷ c ∷ d ∷ []) r
unicode-Reads opts a b c d r e n = λ rest.
    unquote_step_escape opts b'u' (a ∷ b ∷ c ∷ d ∷ rest) refl
    ∙ as_unicode rest
    ∙ ap unicode_rune (e rest)
    ∙ plain rest
  where
    as_unicode :
        (s : Text)
        → escape_char opts b'u' (a ∷ b ∷ c ∷ d ∷ s)
          ≡ unicode_rune (hex_digits 4 0 (a ∷ b ∷ c ∷ d ∷ s))
    as_unicode s = unfold escape_char in refl

    plain : (s : Text) → unicode_rune (some (r, s)) ≡ some (r ∷ [], s)
    plain s = unfold unicode_rune in ground arith

escape_ascii-Reads : (opts : StringOptions) (r : ℕ) → r < 0x80 → Reads opts (escape_ascii r) r
unfolding escape_ascii
escape_ascii-Reads opts r h =
    if_elim P (r == b'\\' || r == b'\"')
      (λ y. char-Reads opts r r (ground arith) λ s. unfold escape_char in ground arith)
      λ _.
        if_elim P (r == 8)
          (λ y. char-Reads opts b'b' r refl λ s. unfold escape_char in ground arith)
          λ _.
            if_elim P (r == 12)
              (λ y. char-Reads opts b'f' r refl λ s. unfold escape_char in ground arith)
              λ _.
                if_elim P (r == 10)
                  (λ y. char-Reads opts b'n' r refl λ s. unfold escape_char in ground arith)
                  λ _.
                    if_elim P (r == 13)
                      (λ y. char-Reads opts b'r' r refl λ s. unfold escape_char in ground arith)
                      λ _.
                        if_elim P (r == 9)
                          (λ y. char-Reads opts b't' r refl λ s. unfold escape_char in ground arith)
                          λ _.
                            unicode-Reads opts b'0' b'0' (hex_digit (r / 16)) (hex_digit (r % 16)) r
                              (λ s. hex_digits_byte r s (omega arith)) (ground arith)
  where
    P : Text → Type 0
    P q = Reads opts q r

separator-Reads :
    (opts : StringOptions) (r : ℕ)
    → (r ≡ 0x2028) ⊎ (r ≡ 0x2029)
    → Reads opts (b'\\' ∷ b'u' ∷ b'2' ∷ b'0' ∷ b'2' ∷ hex_digit (r % 16) ∷ []) r
separator-Reads opts r (inl e) =
    rw e (unicode-Reads opts b'2' b'0' b'2' b'8' 0x2028 (λ s. unfold hex_digits in refl) refl)
separator-Reads opts r (inr e) =
    rw e (unicode-Reads opts b'2' b'0' b'2' b'9' 0x2029 (λ s. unfold hex_digits in refl) refl)

quote_rune-Reads : (opts : StringOptions) (html : Bool) (r : ℕ) → Reads opts (quote_rune html r) r
unfolding quote_rune
quote_rune-Reads opts html r =
    if_elim (λ q. Reads opts q r) (ltb r 0x80)
      (λ small.
        if_elim (λ q. Reads opts q r) (is_safe html r)
          (λ safe rest. unfold unquote_step in ground arith)
          λ _. escape_ascii-Reads opts r (ground arith))
      λ big.
        if_elim (λ q. Reads opts q r) (r == 0x2028 || r == 0x2029)
          (λ sep. separator-Reads opts r (ground arith))
          λ _ rest. unfold unquote_step in ground arith

unquote_loop-Reads :
    (opts : StringOptions) (k : ℕ) (q : Text) (r : ℕ) (rest out : Text)
    → Reads opts q r
    → unquote_loop opts (suc k) (q ++ rest) out ≡ unquote_loop opts k rest (out ++ r ∷ [])
unfolding unquote_loop
unquote_loop-Reads opts k [] r rest out h = absurd h
unquote_loop-Reads opts k (c ∷ q) r rest out h = rw (h rest, unquote_loop)

Reads-length : (opts : StringOptions) (q : Text) (r : ℕ) → Reads opts q r → 0 < length q
Reads-length opts [] r h = absurd h
Reads-length opts (c ∷ q) r h = omega arith

abbrev pub read_back : Piece → ℕ
read_back (rune r) = r
read_back invalid_byte = rune_error

abbrev pub all_read_back : List Piece → Text
all_read_back [] = []
all_read_back (p ∷ s) = read_back p ∷ all_read_back s

quote_piece-Reads :
    (opts : StringOptions) (html : Bool) (p : Piece) → Reads opts (quote_piece html p) (read_back p)
unfolding quote_piece
quote_piece-Reads opts html (rune r) = quote_rune-Reads opts html r
quote_piece-Reads opts html invalid_byte =
    unicode-Reads opts b'f' b'f' b'f' b'd' rune_error (λ s. unfold hex_digits in refl) refl

quote_runes-cons :
    (html : Bool) (p : Piece) (s : List Piece)
    → quote_runes html (p ∷ s) ≡ quote_piece html p ++ quote_runes html s
unfolding quote_runes
quote_runes-cons html p s = refl

quote_runes_cons :
    (html : Bool) (p : Piece) (s : List Piece)
    → length (quote_runes html (p ∷ s)) ≡ length (quote_piece html p ++ quote_runes html s)
quote_runes_cons html p s = ap length (quote_runes-cons html p s)

unquote_loop-quote_runes :
    (opts : StringOptions) (html : Bool) (s : List Piece) (k : ℕ) (out : Text)
    → length (quote_runes html s) ≤ k
    → unquote_loop opts k (quote_runes html s) out ≡ some (out ++ all_read_back s)
unquote_loop-quote_runes opts html [] zero out h =
    unfold unquote_loop quote_runes in ap some (sym (append-nil out))
unquote_loop-quote_runes opts html [] (suc k) out h =
    unfold unquote_loop quote_runes in ap some (sym (append-nil out))
unquote_loop-quote_runes opts html (p ∷ s) zero out h = absurd (
    omega (
      arith,
      Reads-length opts (quote_piece html p) (read_back p) (quote_piece-Reads opts html p),
      length-append (quote_piece html p) (quote_runes html s),
      quote_runes_cons html p s,
    ))
unquote_loop-quote_runes opts html (p ∷ s) (suc k) out h =
    ap (λ q. unquote_loop opts (suc k) q out) (quote_runes-cons html p s)
    ∙ unquote_loop-Reads opts k (quote_piece html p) (read_back p) (quote_runes html s) out
        (quote_piece-Reads opts html p)
    ∙ unquote_loop-quote_runes opts html s k (out ++ read_back p ∷ []) (
        omega (
          arith,
          Reads-length opts (quote_piece html p) (read_back p) (quote_piece-Reads opts html p),
          length-append (quote_piece html p) (quote_runes html s),
          quote_runes_cons html p s,
        ))
    ∙ ap some (append_assoc out (read_back p ∷ []) (all_read_back s))

before_last_cons :
    (quote c : ℕ) (s : Text)
    → before_last quote (s ++ quote ∷ []) ≡ some s
    → before_last quote (c ∷ s ++ quote ∷ []) ≡ some (c ∷ s)
unfolding before_last
before_last_cons quote c [] h = rw (h, before_last)
before_last_cons quote c (d ∷ s) h = rw (h, before_last)

before_last-append : (quote : ℕ) (s : Text) → before_last quote (s ++ quote ∷ []) ≡ some s
unfolding before_last
before_last-append quote [] = ground arith
before_last-append quote (c ∷ s) = before_last_cons quote c s (before_last-append quote s)

between-append : (quote : ℕ) (s : Text) → between quote (quote ∷ (s ++ quote ∷ [])) ≡ some s
unfolding between
between-append quote s = ground (arith, before_last-append quote s)

-- `unquoteString` reads back what `appendString` writes, for every string, with the HTML characters
-- escaped or not, under all syntax options: each rune as itself, and each byte that is no part of
-- valid UTF-8 as U+FFFD.
pub unquote_string-append_string :
    (s : List Piece) (html : Bool) (syntax : SyntaxOptions)
    → unquote_string (append_string s html) syntax ≡ some (all_read_back s)
unquote_string-append_string s html syntax =
    opened
    ∙ ap (λ o. unquote_body opts (or_else o single)) (between-append b'\"' (quote_runes html s))
    ∙ looped
  where
    opts : StringOptions
    opts = string_options syntax

    single : Option Text
    single =
        if not opts.allow_single_quote
        then none
        else between b'\'' (b'\"' ∷ (quote_runes html s ++ b'\"' ∷ []))

    opened :
        unquote_string (append_string s html) syntax
        ≡ unquote_body opts
            (or_else (between b'\"' (b'\"' ∷ (quote_runes html s ++ b'\"' ∷ []))) single)
    opened = unfold unquote_string append_string in refl

    looped : unquote_body opts (or_else (some (quote_runes html s)) single) ≡ some (all_read_back s)
    looped =
        unfold unquote_body or_else in
        unquote_loop-quote_runes opts html s (length (quote_runes html s)) [] (omega arith)

read_back-pieces : (s : Text) → all_read_back (pieces s) ≡ s
read_back-pieces [] = refl
read_back-pieces (r ∷ s) = ap (λ t. r ∷ t) (read_back-pieces s)

pub unquote_string-append_text :
    (s : Text) (html : Bool) (syntax : SyntaxOptions)
    → unquote_string (append_text s html) syntax ≡ some s
unquote_string-append_text s html syntax =
    unquote_string-append_string (pieces s) html syntax ∙ ap some (read_back-pieces s)
