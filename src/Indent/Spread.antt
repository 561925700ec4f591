-- ===== src/Indent/Spread.antt =====
-- json/format.go: `Indent` adds whitespace between the tokens and changes nothing else.
use roundtrip.Base.{
  ℕ, zero, suc, ◌+◌, ◌-◌, ◌<◌, ◌≤◌, ◌≡◌, ◌⊎◌, inl, inr, refl, Text, codes, List, [], ◌∷◌, ◌++◌,
  true, false, Option, some, if_elim, if◌then◌else◌, has_prefix, ltb, All, All-append, append-nil,
  subst, arith,
}
use roundtrip.Indent.{
  is_json_space, repeat, depth_step, head_of, is_comment_token, closes_next, goes_on, not_open,
  write_indent_newline, append_to, before_text, indent_token, append_both, indent_tokens,
}
use roundtrip.Token.{TokenType, colon, comma, delim, comment, Token, is_open_delim, is_close_delim}

abbrev pub IsSpace : Text → Type 0
IsSpace = All (λ c. is_json_space c ≡ true)

-- the literals of the tokens, in order, with whitespace between them
pub data Spread : List Token → Text → Type 0 where
  nothing : Spread [] []
  next_token :
      {t : Token} {ts : List Token} {s : Text} (a b : Text)
      → IsSpace a
      → IsSpace b
      → Spread ts s
      → Spread (t ∷ ts) ((a ++ t.literal ++ b) ++ s)

-- a depth that does not go below zero
abbrev pub Nested : ℕ × ℕ → List Token → Type 0
Nested depth [] = Unit
Nested (opens, closes) (t ∷ ts) =
    (closes ≤ opens)
    × ((is_close_delim t ≡ false) ⊎ (closes < opens))
    × Nested (depth_step t (opens, closes)) ts

abbrev HasLiteral : TokenType → Text → Type 0
HasLiteral colon s = s ≡ codes ":"
HasLiteral comma s = s ≡ codes ","
HasLiteral _ s = Unit

-- A colon and a comma have their own literal.
abbrev pub IsPunctuated : Token → Type 0
IsPunctuated t = HasLiteral t.type t.literal

-- one token with whitespace round it
data Written (t : Token) : Option Text → Type 0 where
  written : (a b : Text) → IsSpace a → IsSpace b → Written t (some (a ++ t.literal ++ b))

IsSpace-repeat : (s : Text) (n : ℕ) → IsSpace s → IsSpace (repeat s n)
IsSpace-repeat s zero h = tt
IsSpace-repeat s (suc n) h = All-append _ s (repeat s n) h (IsSpace-repeat s n h)

plain : (t : Token) → Written t (some t.literal)
plain t = subst (λ s. Written t (some s)) (append-nil t.literal) (written [] [] tt tt)

module _ (prefix indent : Text) (p : IsSpace prefix) (i : IsSpace indent) where
  data Line : Option Text → Type 0 where
    line : (s : Text) → IsSpace s → Line (some s)

  write_indent_newline-Line :
      (opens closes : ℕ)
      → closes ≤ opens
      → Line (write_indent_newline prefix indent (opens, closes))
  unfolding write_indent_newline
  write_indent_newline-Line opens closes h =
      if_elim Line (ltb opens closes) (λ y. absurd (ground arith))
        λ _.
          line _ (
            refl,
            All-append _ prefix (repeat indent (opens - closes)) p (IsSpace-repeat indent _ i),
          )

  line_behind : (t : Token) {o : Option Text} → Line o → Written t (append_to t.literal o)
  line_behind t (line s h) = written [] s tt h

  line_before : (t : Token) {o : Option Text} → Line o → Written t (before_text o t.literal)
  line_before t (line s h) =
      subst (λ r. Written t (some r)) (append-nil (s ++ t.literal)) (written s [] h tt)

  indent_token-Written :
      (prev next : Option Token) (opens closes : ℕ) (ty : TokenType) (t : Token)
      → HasLiteral ty t.literal
      → closes ≤ opens
      → (is_close_delim t ≡ false) ⊎ (closes < opens)
      → Written t (indent_token prefix indent prev (opens, closes) ty t next)
  unfolding indent_token
  indent_token-Written prev next opens closes delim t e h c =
      if_elim (Written t) (is_open_delim t)
        (λ _.
          if_elim (Written t) (goes_on next)
            (λ _. line_behind t (write_indent_newline-Line (opens + 1) closes (omega arith)))
            λ _. plain t)
        λ _.
          if_elim (Written t) (is_close_delim t)
            (λ y.
              if_elim (Written t) (not_open prev)
                (λ _. line_before t (write_indent_newline-Line opens (closes + 1) (below y c)))
                λ _. plain t)
            λ _. plain t
    where
      below :
          is_close_delim t ≡ true
          → (is_close_delim t ≡ false) ⊎ (closes < opens)
          → closes + 1 ≤ opens
      below y (inl n) = cc
      below y (inr k) = omega arith
  indent_token-Written prev next opens closes colon t e h c =
      subst (λ l. Written t (some (l ++ codes " "))) e (written [] (codes " ") tt (refl, tt))
  indent_token-Written prev next opens closes comma t e h c =
      subst
        (λ l. Written t (
          if is_comment_token next
          then some (l ++ codes " ")
          else if closes_next next
          then some l
          else append_to l (write_indent_newline prefix indent (opens, closes))))
        e
        (if_elim (Written t) (is_comment_token next) (λ _. written [] (codes " ") tt (refl, tt))
          λ _.
            if_elim (Written t) (closes_next next) (λ _. plain t)
              λ _. line_behind t (write_indent_newline-Line opens closes h))
  indent_token-Written prev next opens closes comment t e h c =
      if_elim (Written t) (has_prefix t.literal (codes "//"))
        (λ _. line_behind t (write_indent_newline-Line opens closes h)) λ _. plain t
  indent_token-Written prev next opens closes _ t e h c = plain t

  joined :
      {t : Token} {ts : List Token} {o r : Option Text}
      → Written t o
      → (s : Text) × (r ≡ some s) × Spread ts s
      → (s : Text) × (append_both o r ≡ some s) × Spread (t ∷ ts) s
  joined (written a b ha hb) (s, e, h) = (_, rw e refl, next_token a b ha hb h)

  -- The prefix and the indentation are whitespace, the depth of the tokens does not go below zero,
  -- and colons and commas have their own literal. Then `Indent` does not panic, and what it writes
  -- for the tokens is their literals, in order and complete, with whitespace between them.
  pub indent_tokens-Spread :
      (prev : Option Token) (depth : ℕ × ℕ) (ts : List Token)
      → Nested depth ts
      → All IsPunctuated ts
      → (s : Text) × (indent_tokens prefix indent prev depth ts ≡ some s) × Spread ts s
  unfolding indent_tokens
  indent_tokens-Spread prev depth [] n l = ([], refl, nothing)
  indent_tokens-Spread prev (opens, closes) (t ∷ ts) (h, c, n) (e, l) =
      joined (indent_token-Written prev (head_of ts) opens closes t.type t e h c)
        (indent_tokens-Spread (some t) (depth_step t (opens, closes)) ts n l)
