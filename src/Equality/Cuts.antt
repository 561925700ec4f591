-- ===== src/Equality/Cuts.antt =====
-- json/patch.go: where `jsonNumberRat` cuts a number in decimal notation.
use roundtrip.Base.{
  [], ℕ, ◌+◌, ◌-◌, ◌*◌, ◌^◌, ◌<◌, ◌≡◌, refl, ap, ◌∙◌, Text, ◌∷◌, ◌++◌, Bool, true, false, ◌&&◌,
  ◌==◌, leb, Bool-cases, inl, inr, Option, none, some, length, arith,
}
use roundtrip.Chars.{ascii_digit}
use roundtrip.Equality.Numerals.{leading_digits, digits_number, with_sign, exponent_of}
use roundtrip.Equality.{cut_first, cut_at, digits, atoi}
use roundtrip.Pointer.Positional.{decimal_value, digits_value-decimal_value, from_zero}
use roundtrip.Pointer.{on_some}

abbrev pub all_digits : Text → Bool
all_digits [] = true
all_digits (c ∷ s) = ascii_digit c && all_digits s

pub cut_at-found : (c : ℕ) (s t : Text) → cut_at c s ≡ none → cut_at c (s ++ c ∷ t) ≡ some (s, t)
unfolding cut_at
cut_at-found c [] t h = let e : (c == c) ≡ true = ground arith in rw e refl
cut_at-found c (d ∷ s) t h = elim (Bool-cases (d == c)) [
  | inl y ↦ cc (rw y at h)
  | inr n ↦ rw (n, cut_at-found c s t (inner (cut_at c s) (rw n at h))) refl
]
  where
    inner : (o : Option (Text × Text)) → cut_first d o ≡ none → o ≡ none
    inner none k = refl
    inner (some (a, b)) k = cc k

pub cut_at-missing :
    (c : ℕ) (s t : Text) → cut_at c s ≡ none → cut_at c t ≡ none → cut_at c (s ++ t) ≡ none
unfolding cut_at
cut_at-missing c [] t h k = k
cut_at-missing c (d ∷ s) t h k = elim (Bool-cases (d == c)) [
  | inl y ↦ cc (rw y at h)
  | inr n ↦ rw (n, cut_at-missing c s t (inner (cut_at c s) (rw n at h)) k) refl
]
  where
    inner : (o : Option (Text × Text)) → cut_first d o ≡ none → o ≡ none
    inner none k = refl
    inner (some (a, b)) k = cc k

pub cut_at-digits :
    (c : ℕ) (s : Text) → ascii_digit c ≡ false → all_digits s ≡ true → cut_at c s ≡ none
unfolding cut_at
cut_at-digits c [] h k = refl
cut_at-digits c (d ∷ s) h k =
    let n : (d == c) ≡ false = ground arith in
    let e : all_digits s ≡ true = ground arith in rw (n, cut_at-digits c s h e) refl

pub cut_at-cons :
    (c d : ℕ) (s : Text) → (d == c) ≡ false → cut_at c s ≡ none → cut_at c (d ∷ s) ≡ none
unfolding cut_at
cut_at-cons c d s h k = rw (h, k) refl

pub digits-digits_number : (s : Text) → digits s ≡ digits_number s
digits-digits_number [] = refl
digits-digits_number (c ∷ s) =
    digits_value-decimal_value 0 (c ∷ s) ∙ from_zero (decimal_value (c ∷ s)) (10 ^ length (c ∷ s))

-- Every text is its leading digits and the rest.
pub leading_digits-all :
    (s : Text)
    → (w : Text) × (r : Text) × (leading_digits s ≡ (w, r)) × (w ++ r ≡ s) × (all_digits w ≡ true)
leading_digits-all [] = ([], [], refl, refl, refl)
leading_digits-all (c ∷ s) = elim (Bool-cases (ascii_digit c)) [
  | inl y ↦
      let (w, r, e, j, a) = leading_digits-all s in
      (c ∷ w, r, rw (e, y) refl, ap (λ t. c ∷ t) j, rw y a)
  | inr n ↦ let (w, r, e, j, a) = leading_digits-all s in ([], c ∷ s, rw (e, n) refl, refl, refl)
]

decimal_value-digits : (s : Text) (n : ℕ) → decimal_value s ≡ some n → all_digits s ≡ true
decimal_value-digits [] n h = refl
decimal_value-digits (c ∷ s) n h = elim (Bool-cases (ascii_digit c)) [
  | inl y ↦ rw y (inner (decimal_value s) refl (rw y at h) (λ m. decimal_value-digits s m))
  | inr m ↦ cc (rw m at h)
]
  where
    inner :
        (o : Option ℕ)
        → decimal_value s ≡ o
        → on_some (λ m. (c - b'0') * 10 ^ length s + m) o ≡ some n
        → ((m : ℕ) → decimal_value s ≡ some m → all_digits s ≡ true)
        → all_digits s ≡ true
    inner none e k again = cc k
    inner (some m) e k again = again m e

pub digits_number-digits : (s : Text) (n : ℕ) → digits_number s ≡ some n → all_digits s ≡ true
digits_number-digits [] n h = refl
digits_number-digits (c ∷ s) n h = decimal_value-digits (c ∷ s) n h

with_sign_inv :
    (m sh : Bool) (o : Option ℕ) (k : ℕ) → with_sign m o ≡ some (sh, k) → (o ≡ some k) × (m ≡ sh)
with_sign_inv m sh none k h = cc h
with_sign_inv m sh (some n) k h =
    let a : n ≡ k = cc h in let b : m ≡ sh = cc h in (ap (λ z. some z) a, b)

-- An exponent that fits is read by `strconv.Atoi`, and holds no other mark of an exponent.
pub atoi-exponent_of :
    (x : Text) (sh : Bool) (k : ℕ)
    → exponent_of x ≡ some (sh, k)
    → k < 2 ^ 63
    → (atoi x ≡ some (record { minus = sh; size = k })) × (cut_at b'e' x ≡ none)
atoi-exponent_of [] sh k h l = cc h
atoi-exponent_of (c ∷ s) sh k h l = elim (Bool-cases (c == b'-')) [
  | inl y ↦
      let (e, q) = with_sign_inv true sh (digits_number s) k (rw y at h) in
      let fits : leb k (2 ^ 63) ≡ true = ground arith in
      let n : (c == b'e') ≡ false = ground arith in
      (
        rw (y, digits-digits_number s, e, fits, q) refl,
        cut_at-cons b'e' c s n (cut_at-digits b'e' s refl (digits_number-digits s k e)),
      )
  | inr m ↦ elim (Bool-cases (c == b'+')) [
    | inl y ↦
        let (e, q) = with_sign_inv false sh (digits_number s) k (rw (m, y) at h) in
        let fits : leb k (2 ^ 63 - 1) ≡ true = ground arith in
        let n : (c == b'e') ≡ false = ground arith in
        (
          rw (m, y, digits-digits_number s, e, fits, q) refl,
          cut_at-cons b'e' c s n (cut_at-digits b'e' s refl (digits_number-digits s k e)),
        )
    | inr p ↦
        let (e, q) = with_sign_inv false sh (digits_number (c ∷ s)) k (rw (m, p) at h) in
        let fits : leb k (2 ^ 63 - 1) ≡ true = ground arith in
        (
          rw (m, p, digits-digits_number (c ∷ s), e, fits, q) refl,
          cut_at-digits b'e' (c ∷ s) refl (digits_number-digits (c ∷ s) k e),
        )
  ]
]
