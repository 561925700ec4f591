-- ===== src/Pointer/Positional.antt =====
-- The array indices of RFC 6901, and those that a sign or leading zeros precede, by the places of their
-- digits: a description of indices that does not depend on `pointerArrayIndex` of json/path.go.
use roundtrip.Base.{
  [], ℕ, zero, suc, ◌+◌, ◌-◌, ◌*◌, ◌^◌, ◌≡◌, refl, ap, sym, ◌∙◌, Text, codes, ◌∷◌, Bool, true,
  false, ◌==◌, ◌||◌, ltb, if◌then◌else◌, Option, none, some, length, text_eq, Bool-cases, inl, inr,
  arith,
}
use native.Mathlib.Nat.{pow-suc}
use roundtrip.Chars.{ascii_digit}
use roundtrip.Pointer.{
  on_some, digits_value, some_value, ArrayIndex, index, invalid_append, invalid_path_segment,
  positive, negative, atoi_index, pointer_array_index,
}

-- the value of decimal digits: each counts as much as its place says
abbrev pub decimal_value : Text → Option ℕ
decimal_value [] = some 0
decimal_value (c ∷ s) =
    let rest = on_some (λ m. (c - b'0') * 10 ^ length s + m) (decimal_value s) in
    if ascii_digit c then rest else none

-- `array-index` of RFC 6901, section 4: the digit 0, or digits that do not begin with 0
abbrev pub rfc_index : Text → Option ℕ
rfc_index [] = none
rfc_index (c ∷ []) = decimal_value (c ∷ [])
rfc_index (c ∷ d ∷ s) = if c == b'0' then none else decimal_value (c ∷ d ∷ s)

-- the text without the zeros before its last character
abbrev pub without_zeros : Text → Text
without_zeros [] = []
without_zeros (c ∷ []) = c ∷ []
without_zeros (c ∷ d ∷ s) =
    let rest = without_zeros (d ∷ s) in if c == b'0' then rest else c ∷ d ∷ s

-- no slice is longer than the largest `int`
abbrev pub in_int : Option ℕ → Option ℕ
in_int none = none
in_int (some n) = if ltb n (2 ^ 63) then some n else none

abbrev pub if_zero : Option ℕ → Option ℕ
if_zero none = none
if_zero (some zero) = some zero
if_zero (some (suc n)) = none

-- an index of RFC 6901 behind leading zeros and a sign; behind a minus sign, zero only
abbrev pub index_of : Text → Option ℕ
index_of [] = none
index_of (c ∷ s) =
    if c == b'-'
    then if_zero (rfc_index (without_zeros s))
    else if c == b'+'
    then in_int (rfc_index (without_zeros s))
    else in_int (rfc_index (without_zeros (c ∷ s)))

-- a sign, or a zero before other characters
abbrev pub has_prefix : Text → Bool
has_prefix [] = false
has_prefix (c ∷ []) = c == b'-' || c == b'+'
has_prefix (c ∷ d ∷ s) = c == b'-' || c == b'+' || c == b'0'

abbrev pub index_value : ArrayIndex → Option ℕ
index_value (index i) = some i
index_value invalid_append = none
index_value invalid_path_segment = none

place : (n d p m : ℕ) → (n * 10 + d) * p + m ≡ n * (p * 10) + (d * p + m)
place n d p m = grind arith

in_place :
    (n d p : ℕ) (o : Option ℕ)
    → on_some (λ m. (n * 10 + d) * p + m) o
      ≡ on_some (λ m. n * (p * 10) + m) (on_some (λ m. d * p + m) o)
in_place n d p none = refl
in_place n d p (some m) = ap (λ k. some k) (place n d p m)

pub digits_value-decimal_value :
    (n : ℕ) (s : Text) → digits_value n s ≡ on_some (λ m. n * 10 ^ length s + m) (decimal_value s)
unfolding digits_value
digits_value-decimal_value n [] = ap (λ k. some k) (omega arith)
digits_value-decimal_value n (c ∷ s) = elim (Bool-cases (ascii_digit c)) [
  | inl y ↦ rw y (
      digits_value-decimal_value (n * 10 + (c - b'0')) s
      ∙ in_place n (c - b'0') (10 ^ length s) (decimal_value s)
      ∙ ap
          (λ p.
            on_some (λ m. n * p + m)
              (on_some (λ m. (c - b'0') * 10 ^ length s + m) (decimal_value s)))
          (sym (pow-suc 10 (length s))))
  | inr m ↦ rw m refl
]

pub from_zero : (o : Option ℕ) (p : ℕ) → on_some (λ m. 0 * p + m) o ≡ o
from_zero none p = refl
from_zero (some m) p = ap (λ k. some k) (omega arith)

some_value_lem : (s : Text) → some_value s ≡ rfc_index (without_zeros s)
some_value_lem [] = refl
some_value_lem (c ∷ s) =
    digits_value-decimal_value 0 (c ∷ s)
    ∙ from_zero (decimal_value (c ∷ s)) (10 ^ length (c ∷ s))
    ∙ sym (stripped c s)
  where
    stripped : (c : ℕ) (s : Text) → rfc_index (without_zeros (c ∷ s)) ≡ decimal_value (c ∷ s)
    stripped c [] = refl
    stripped c (d ∷ s) = elim (Bool-cases (c == b'0')) [
      | inl y ↦
          let q : c ≡ b'0' = ground arith in
          rw (y, q) (stripped d s ∙ sym (from_zero (decimal_value (d ∷ s)) (10 ^ length (d ∷ s))))
      | inr n ↦ rw (n, n) refl
    ]

positive-in_int : (o : Option ℕ) → index_value (positive o) ≡ in_int o
positive-in_int none = refl
positive-in_int (some n) = elim (Bool-cases (ltb n (2 ^ 63))) [
  | inl y ↦ rw y refl
  | inr m ↦ rw m refl
]

negative-if_zero : (o : Option ℕ) → index_value (negative o) ≡ if_zero o
negative-if_zero none = refl
negative-if_zero (some zero) = refl
negative-if_zero (some (suc n)) = refl

atoi_index-index_of : (s : Text) → index_value (atoi_index s) ≡ index_of s
atoi_index-index_of [] = refl
atoi_index-index_of (c ∷ s) = elim (Bool-cases (c == b'-')) [
  | inl y ↦ rw y (negative-if_zero (some_value s) ∙ ap if_zero (some_value_lem s))
  | inr n ↦ elim (Bool-cases (c == b'+')) [
    | inl y ↦ rw (n, y) (positive-in_int (some_value s) ∙ ap in_int (some_value_lem s))
    | inr m ↦ rw (n, m) (positive-in_int (some_value (c ∷ s)) ∙ ap in_int (some_value_lem (c ∷ s)))
  ]
]

only_minus : (s : Text) → text_eq s (codes "-") ≡ true → none ≡ index_of s
unfolding text_eq
only_minus [] h = refl
only_minus (c ∷ []) h = let q : c ≡ b'-' = ground arith in rw q refl
only_minus (c ∷ d ∷ s) h = ground arith

-- The indices that `pointerArrayIndex` reads are those described here.
pub pointer_array_index-index_of :
    (token : Text) → index_value (pointer_array_index token false) ≡ index_of token
unfolding pointer_array_index
pointer_array_index-index_of token = elim (Bool-cases (text_eq token (codes "-"))) [
  | inl y ↦ rw y (only_minus token y)
  | inr n ↦ rw n (atoi_index-index_of token)
]

-- A token with no sign and no leading zero is read as RFC 6901 says.
pub rfc_index-plain :
    (token : Text) → has_prefix token ≡ false → in_int (rfc_index token) ≡ index_of token
rfc_index-plain [] h = refl
rfc_index-plain (c ∷ []) h =
    let a : (c == b'-') ≡ false = ground arith in
    let b : (c == b'+') ≡ false = ground arith in rw (a, b) refl
rfc_index-plain (c ∷ d ∷ s) h =
    let a : (c == b'-') ≡ false = ground arith in
    let b : (c == b'+') ≡ false = ground arith in
    let z : (c == b'0') ≡ false = ground arith in rw (a, b, z, z) refl

-- RFC 6901 has no index with a sign or a leading zero.
pub rfc_index-prefixed : (token : Text) → has_prefix token ≡ true → rfc_index token ≡ none
rfc_index-prefixed [] h = refl
rfc_index-prefixed (c ∷ []) h = let a : ascii_digit c ≡ false = ground arith in rw a refl
rfc_index-prefixed (c ∷ d ∷ s) h = elim (Bool-cases (c == b'0')) [
  | inl y ↦ rw y refl
  | inr n ↦ let a : ascii_digit c ≡ false = ground arith in rw (n, a) refl
]
