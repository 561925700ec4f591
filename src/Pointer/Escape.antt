-- ===== src/Pointer/Escape.antt =====
-- json/path.go: the escapes in the tokens of a JSON pointer, against RFC 6901.
use roundtrip.Base.{
  ℕ, ◌≡◌, ◌≢◌, refl, ap, sym, ◌∙◌, Text, List, [], ◌∷◌, ◌++◌, Bool, true, false, none, some, ◌==◌,
  if◌then◌else◌, All, Option-cases, Bool-cases, inl, inr, arith,
}
use roundtrip.Pointer.{unescape_from}

-- Section 3 and 4 of the RFC: `~` is written `~0`, and `/` is written `~1`.
abbrev pub escape : Text → Text
escape [] = []
escape (c ∷ t) =
    if c == b'~'
    then b'~' ∷ b'0' ∷ escape t
    else if c == b'/'
    then b'~' ∷ b'1' ∷ escape t
    else c ∷ escape t

abbrev pub pointer_text : List Text → Text
pointer_text [] = []
pointer_text (t ∷ ts) = b'/' ∷ escape t ++ pointer_text ts

pub unescape-escape : (t : Text) → unescape_from false (escape t) ≡ some t
unfolding unescape_from
unescape-escape [] = refl
unescape-escape (c ∷ t) = ground (arith, unescape-escape t)

-- what a token's text starts with behind the flag
abbrev behind : Bool → Text → Text
behind true s = b'~' ∷ s
behind false s = s

abbrev pub NoSlash : Text → Type 0
NoSlash s = All (λ c. (c == b'/') ≡ false) s

escape_plain :
    (c : ℕ) (s x t : Text)
    → (c == b'~') ≡ false
    → (c == b'/') ≡ false
    → escape x ≡ s
    → t ≡ c ∷ x
    → escape t ≡ c ∷ s
escape_plain c s x t a b e f = rw (f, a, b, e) refl

pub is_slash : (c : ℕ) → (c == b'/') ≡ true → b'/' ≡ c
is_slash c y = ground arith

first_tilde :
    (c : ℕ) (s : Text) → (c == b'~') ≡ true → unescape_from false (c ∷ s) ≡ unescape_from true s
unfolding unescape_from
first_tilde c s y = rw y refl

is_tilde : (c : ℕ) → (c == b'~') ≡ true → b'~' ≡ c
is_tilde c y = ground arith

plain_none :
    (c : ℕ) (s t : Text)
    → (c == b'~') ≡ false
    → unescape_from false s ≡ none
    → unescape_from false (c ∷ s) ≢ some t
unfolding unescape_from
plain_none c s t y e h = ground arith

plain_some :
    (c : ℕ) (s t x : Text)
    → (c == b'~') ≡ false
    → unescape_from false s ≡ some x
    → unescape_from false (c ∷ s) ≡ some t
    → t ≡ c ∷ x
unfolding unescape_from
plain_some c s t x y e h = ground arith

pub escape-unescape :
    (tilde : Bool) (s t : Text)
    → NoSlash s
    → unescape_from tilde s ≡ some t
    → escape t ≡ behind tilde s
unfolding unescape_from
escape-unescape false [] t n h = ground arith
escape-unescape true [] t n h = cc
escape-unescape false (c ∷ s) t n h = elim (Bool-cases (c == b'~')) [
  | inl y ↦
      escape-unescape true s t n.1 (sym (first_tilde c s y) ∙ h) ∙ ap (λ d. d ∷ s) (is_tilde c y)
  | inr y ↦ elim (Option-cases (unescape_from false s)) [
    | inl e ↦ absurd (plain_none c s t y e h)
    | inr (x, e) ↦
        escape_plain c s x t y n.0 (escape-unescape false s x n.1 e) (plain_some c s t x y e h)
  ]
]
escape-unescape true (c ∷ s) t n h = elim (Option-cases (unescape_from false s)) [
  | inl e ↦ ground arith
  | inr (x, e) ↦ ground (arith, escape-unescape false s x n.1 e)
]
