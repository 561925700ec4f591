-- ===== src/Pointer/Index.antt =====
-- json/path.go: the array indices that `pointerArrayIndex` takes.
use roundtrip.Base.{
  ℕ, ◌≡◌, refl, ap, sym, ◌∙◌, Text, codes, ◌∷◌, Bool, true, false, ◌==◌, text_eq, arith,
}
use roundtrip.Chars.{ascii_digit}
use roundtrip.Pointer.{digits_value, positive, pointer_array_index}

digit_not_sign : (c : ℕ) → ascii_digit c ≡ true → ((c == b'-') ≡ false) × ((c == b'+') ≡ false)
digit_not_sign c h = ground arith

not_minus : (c : ℕ) (s : Text) → ascii_digit c ≡ true → text_eq (c ∷ s) (codes "-") ≡ false
unfolding text_eq
not_minus c s h = ground arith

pub digit_index :
    (c : ℕ) (s : Text) (allow_append : Bool)
    → ascii_digit c ≡ true
    → pointer_array_index (c ∷ s) allow_append ≡ positive (digits_value 0 (c ∷ s))
unfolding pointer_array_index
digit_index c s allow_append h = let (a, b) = digit_not_sign c h in rw (not_minus c s h, a, b) refl

zero_behind : (c : ℕ) (s : Text) → digits_value 0 (b'0' ∷ c ∷ s) ≡ digits_value 0 (c ∷ s)
unfolding digits_value
zero_behind c s = refl

plus_index :
    (c : ℕ) (s : Text) (allow_append : Bool)
    → pointer_array_index (b'+' ∷ c ∷ s) allow_append ≡ positive (digits_value 0 (c ∷ s))
unfolding pointer_array_index text_eq
plus_index c s allow_append = refl

-- Before a token that starts with a digit, `pointerArrayIndex` takes a leading zero and a plus sign
-- as if they were not there.
pub pointer_array_index_prefix :
    (c : ℕ) (s : Text) (allow_append : Bool)
    → ascii_digit c ≡ true
    → (pointer_array_index (b'0' ∷ c ∷ s) allow_append ≡ pointer_array_index (c ∷ s) allow_append)
      × (pointer_array_index (b'+' ∷ c ∷ s) allow_append ≡ pointer_array_index (c ∷ s) allow_append)
pointer_array_index_prefix c s allow_append h =
    let e = sym (digit_index c s allow_append h) in
    (
      digit_index b'0' (c ∷ s) allow_append refl ∙ ap positive (zero_behind c s) ∙ e,
      plus_index c s allow_append ∙ e,
    )
