-- ===== src/Equality/Words.antt =====
-- json/patch.go: numbers that are words or hexadecimal are compared by their texts.
use roundtrip.Base.{
  [], ℕ, ◌≡◌, ◌⊎◌, refl, Text, ◌∷◌, ◌++◌, Bool, true, false, ◌==◌, ◌||◌, Bool-cases, inl, inr,
  Option, none, some, length, arith,
}
use roundtrip.Chars.{ascii_digit}
use roundtrip.Equality.Fractions.{rat_eq-decimals_equal}
use roundtrip.Equality.Numbers.{json_number_rat-Same}
use roundtrip.Equality.Numerals.{
  word_start, is_word, unsigned_decimal, decimal_of, number_equal, Plain, notation, word,
}
use roundtrip.Equality.{
  cut_at, cut_first, Signed, set_string, atoi, zero_exponent, with_digits, of_mantissa,
  unsigned_rat, json_number_rat, json_numbers_equal,
}
use roundtrip.Pointer.{digits_value}

-- how a word or a hexadecimal number begins
data Word : Text → Type 0 where
  letter : {a : ℕ} {s : Text} → (a == b'I' || a == b'N') ≡ true → Word (a ∷ s)
  hex : {d : ℕ} {s : Text} → (d == b'x' || d == b'X') ≡ true → Word (b'0' ∷ d ∷ s)

word_start-Word : (s : Text) → word_start s ≡ true → Word s
word_start-Word [] h = cc h
word_start-Word (c ∷ []) h = letter h
word_start-Word (c ∷ d ∷ s) h = elim (Bool-cases (c == b'I' || c == b'N')) [
  | inl y ↦ letter y
  | inr n ↦
      let q : c ≡ b'0' = ground arith in
      let k : (d == b'x' || d == b'X') ≡ true = ground arith in rw q (hex k)
]

Word-append : (s t : Text) → Word s → Word (s ++ t)
Word-append _ t (letter h) = letter h
Word-append _ t (hex h) = hex h

set_string-Word : (s : Text) → Word s → set_string s ≡ none
unfolding digits_value
set_string-Word _ (letter {a = a} h) =
    let m : (a == b'-') ≡ false = ground arith in
    let p : (a == b'+') ≡ false = ground arith in
    let n : ascii_digit a ≡ false = ground arith in rw (m, p, n) refl
set_string-Word _ (hex {d = d} h) = let n : ascii_digit d ≡ false = ground arith in rw n refl

with_digits-Word :
    (m : Bool) (s : Text) (scale : ℕ) (e : Signed) → Word s → with_digits m s scale e ≡ none
with_digits-Word m s scale e h = rw (set_string-Word s h) refl

-- a cut leaves the beginning
cut_at-Word :
    (c : ℕ) (s : Text)
    → (c == b'.' || c == b'e' || c == b'E') ≡ true
    → Word s
    → (cut_at c s ≡ none) ⊎ ((w : Text) × (t : Text) × (cut_at c s ≡ some (w, t)) × Word w)
unfolding cut_at
cut_at-Word c _ k (letter {a = a} {s = s} h) =
    let n : (a == c) ≡ false = ground arith in rw n (by_rest (cut_at c s))
  where
    by_rest :
        (o : Option (Text × Text))
        → (cut_first a o ≡ none)
          ⊎ ((w : Text) × (t : Text) × (cut_first a o ≡ some (w, t)) × Word w)
    by_rest none = inl refl
    by_rest (some (w, t)) = inr (a ∷ w, t, refl, letter h)
cut_at-Word c _ k (hex {d = d} {s = s} h) =
    let z : (b'0' == c) ≡ false = ground arith in
    let n : (d == c) ≡ false = ground arith in rw (z, n) (by_rest (cut_at c s))
  where
    by_rest :
        (o : Option (Text × Text))
        → (cut_first b'0' (cut_first d o) ≡ none)
          ⊎ ((w : Text) × (t : Text) × (cut_first b'0' (cut_first d o) ≡ some (w, t)) × Word w)
    by_rest none = inl refl
    by_rest (some (w, t)) = inr (b'0' ∷ d ∷ w, t, refl, hex h)

of_mantissa-Word :
    (m : Bool) (t : Text) (e : Option Signed) → Word t → of_mantissa m t (cut_at b'.' t) e ≡ none
of_mantissa-Word m t none h = refl
of_mantissa-Word m t (some e) h = elim (cut_at-Word b'.' t refl h) [
  | inl q ↦ rw q (with_digits-Word m t 0 e h)
  | inr (w, f, q, k) ↦ rw q (with_digits-Word m (w ++ f) (length f) e (Word-append w f k))
]

unsigned_rat-Word : (m : Bool) (s : Text) → Word s → unsigned_rat m s ≡ none
unsigned_rat-Word m s h = elim (cut_at-Word b'e' s refl h) [
  | inr (w, x, q, k) ↦ rw q (of_mantissa-Word m w (atoi x) k)
  | inl q ↦ elim (cut_at-Word b'E' s refl h) [
    | inr (w, x, p, k) ↦ rw (q, p) (of_mantissa-Word m w (atoi x) k)
    | inl p ↦ rw (q, p) (of_mantissa-Word m s zero_exponent h)
  ]
]

unsigned_decimal-Word : (m : Bool) (s : Text) → Word s → unsigned_decimal m s ≡ none
unsigned_decimal-Word m _ (letter {a = a} h) =
    let n : ascii_digit a ≡ false = ground arith in
    let p : (a == b'.') ≡ false = ground arith in
    let e : (a == b'e' || a == b'E') ≡ false = ground arith in rw (n, p, e) refl
unsigned_decimal-Word m _ (hex {d = d} h) =
    let n : ascii_digit d ≡ false = ground arith in
    let p : (d == b'.') ≡ false = ground arith in
    let e : (d == b'e' || d == b'E') ≡ false = ground arith in rw (n, p, e) refl

is_word-none : (s : Text) → is_word s ≡ true → (json_number_rat s ≡ none) × (decimal_of s ≡ none)
unfolding json_number_rat
is_word-none [] h = cc h
is_word-none (c ∷ s) h = elim (Bool-cases (c == b'-')) [
  | inl y ↦
      let k = word_start-Word s (rw y at h) in
      (rw y (unsigned_rat-Word true s k), rw y (unsigned_decimal-Word true s k))
  | inr n ↦ elim (Bool-cases (c == b'+')) [
    | inl y ↦
        let k = word_start-Word s (rw (n, y) at h) in
        (rw (n, y) (unsigned_rat-Word false s k), rw (n, y) (unsigned_decimal-Word false s k))
    | inr p ↦
        let k = word_start-Word (c ∷ s) (rw (n, p) at h) in
        (
          rw (n, p) (unsigned_rat-Word false (c ∷ s) k),
          rw (n, p) (unsigned_decimal-Word false (c ∷ s) k),
        )
  ]
]

-- `jsonNumbersEqual` is the equality of numbers, for numbers whose exponents fit and for words.
pub json_numbers_equal-number_equal :
    (s t : Text) → Plain s → Plain t → json_numbers_equal s t ≡ number_equal s t
unfolding json_numbers_equal
json_numbers_equal-number_equal s t (word h) _ = let (a, b) = is_word-none s h in rw (a, b) refl
json_numbers_equal-number_equal s t (notation c hc lc) (word h) =
    let (a, b) = is_word-none t h in
    let (r, hr, _) = json_number_rat-Same s c hc lc in rw (a, b, hr, hc) refl
json_numbers_equal-number_equal s t (notation c hc lc) (notation d hd ld) =
    let (r, hr, sr) = json_number_rat-Same s c hc lc in
    let (q, hq, sq) = json_number_rat-Same t d hd ld in
    rw (hr, hq, hc, hd) (rat_eq-decimals_equal r q c d sr sq)
