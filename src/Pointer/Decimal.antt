-- ===== src/Pointer/Decimal.antt =====
-- json/path.go: `pointerArrayIndex` reads the decimal digits of an index.
use roundtrip.Base.{
  ℕ, zero, suc, ◌+◌, ◌-◌, ◌*◌, ◌/◌, ◌%◌, ◌^◌, ◌<◌, ◌≡◌, ap, ◌∙◌, Text, [], ◌∷◌, ◌++◌, Bool, true,
  false, some, ltb, if◌then◌else◌, if_elim, Bool-cases, inl, inr, arith,
}
use roundtrip.Chars.{ascii_digit}
use roundtrip.Pointer.Index.{digit_index}
use roundtrip.Pointer.{digits_value, index, positive, pointer_array_index}

-- the digits of `n`, on fuel
abbrev pub decimal_in : ℕ → ℕ → Text
decimal_in zero n = []
decimal_in (suc k) n =
    let rest = decimal_in k (n / 10) in
    if ltb n 10 then (b'0' + n) ∷ [] else rest ++ (b'0' + n % 10) ∷ []

abbrev pub decimal : ℕ → Text
decimal n = decimal_in (suc n) n

digits_value_snoc :
    (s : Text) (a v c : ℕ)
    → ascii_digit c ≡ true
    → digits_value a s ≡ some v
    → digits_value a (s ++ c ∷ []) ≡ some (v * 10 + (c - b'0'))
unfolding digits_value
digits_value_snoc [] a v c h e = ground arith
digits_value_snoc (x ∷ s) a v c h e = elim (Bool-cases (ascii_digit x)) [
  | inl y ↦ rw y (digits_value_snoc s (a * 10 + (x - b'0')) v c h (first x s a v y e))
  | inr n ↦ ground arith
]
  where
    first :
        (x : ℕ) (s : Text) (a v : ℕ)
        → ascii_digit x ≡ true
        → digits_value a (x ∷ s) ≡ some v
        → digits_value (a * 10 + (x - b'0')) s ≡ some v
    first x s a v y e = ground arith

digit_of : (n : ℕ) → n < 10 → ascii_digit (b'0' + n) ≡ true
digit_of n h = ground arith

data Reads (n : ℕ) : Text → Type 0 where
  reads :
      (c : ℕ) (s : Text) → ascii_digit c ≡ true → digits_value 0 (c ∷ s) ≡ some n → Reads n (c ∷ s)

one_digit : (n : ℕ) → n < 10 → digits_value 0 ((b'0' + n) ∷ []) ≡ some n
unfolding digits_value
one_digit n h = rw (digit_of n h) (ap some (omega arith))

Reads-snoc : (n : ℕ) {s : Text} → Reads (n / 10) s → Reads n (s ++ (b'0' + n % 10) ∷ [])
Reads-snoc n (reads c s h e) = reads c _ h (
    digits_value_snoc (c ∷ s) 0 (n / 10) (b'0' + n % 10) (digit_of (n % 10) (omega arith)) e
    ∙ ap some (omega arith))

decimal_in-Reads : (k n : ℕ) → n < k → Reads n (decimal_in k n)
decimal_in-Reads zero n h = elim h [ ]
decimal_in-Reads (suc k) n h =
    if_elim (Reads n) (ltb n 10)
      (λ y. reads (b'0' + n) [] (digit_of n (ground arith)) (one_digit n (ground arith)))
      λ y. Reads-snoc n (decimal_in-Reads k (n / 10) (below y))
  where
    below : ltb n 10 ≡ false → n / 10 < k
    below y = ground arith

index_of_Reads :
    (n : ℕ) (allow_append : Bool) {s : Text}
    → n < 2 ^ 63
    → Reads n s
    → pointer_array_index s allow_append ≡ index n
index_of_Reads n allow_append h (reads c s d e) =
    digit_index c s allow_append d ∙ ap positive e ∙ small
  where
    small : positive (some n) ≡ index n
    small = ground arith

-- `pointerArrayIndex` returns the index whose decimal digits it is given, if the index is below 2^63,
-- whether appending is allowed or not.
pub pointer_array_index-decimal :
    (n : ℕ) (allow_append : Bool)
    → n < 2 ^ 63
    → pointer_array_index (decimal n) allow_append ≡ index n
pointer_array_index-decimal n allow_append h =
    index_of_Reads n allow_append h (decimal_in-Reads (suc n) n (omega arith))
