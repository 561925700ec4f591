-- ===== src/Number/Complete.antt =====
-- json/util.go: `validNumber` accepts every number of the grammar.
use roundtrip.Base.{
  ◌≡◌, ◌↔◌, refl, ap, inl, inr, Text, [], ◌∷◌, ◌++◌, true, false, ◌||◌, ◌==◌, some, arith,
  append-nil,
}
use roundtrip.Number.Grammar.{
  IsDigits, IsDigits1, IsInt, IsFrac, IsExp, IsSigned, IsMinus, IsNumber, NoDigit,
}
use roundtrip.Number.Sound.{valid_number-IsNumber}
use roundtrip.Number.{
  skip_digits, some_digits, skip_sign, integer_part, fraction_part, exponent_part, valid_number,
}

skip_digits-append : (d rest : Text) → IsDigits d → NoDigit rest → skip_digits (d ++ rest) ≡ rest
unfolding skip_digits
skip_digits-append [] [] h n = refl
skip_digits-append [] (c ∷ rest) h n = ground arith
skip_digits-append (c ∷ d) rest h n = ground (arith, skip_digits-append d rest h.1 n)

some_digits-append :
    (d rest : Text) → IsDigits1 d → NoDigit rest → some_digits (d ++ rest) ≡ some rest
unfolding some_digits
some_digits-append [] rest h n = absurd h
some_digits-append (c ∷ d) rest h n = rw h.0 (ap some (skip_digits-append d rest h.1 n))

integer_part-append :
    (i rest : Text) → IsInt i → NoDigit rest → integer_part (i ++ rest) ≡ some rest
unfolding integer_part
integer_part-append [] rest h n = absurd h
integer_part-append (c ∷ i) rest (inl (z, e)) n = rw (z, e)
integer_part-append (c ∷ i) rest (inr (z, y, d)) n = ground (arith, skip_digits-append i rest d n)

-- what may stand behind the fraction
NoPoint : Text → Type 0
NoPoint [] = Unit
NoPoint (c ∷ _) = (c == b'.') ≡ false

fraction_part-append :
    (f rest : Text) → IsFrac f → NoDigit rest → NoPoint rest → fraction_part (f ++ rest) ≡ some rest
unfolding fraction_part NoPoint
fraction_part-append [] [] h n p = refl
fraction_part-append [] (c ∷ rest) h n p = rw p
fraction_part-append (c ∷ f) rest h n p = rw h.0 (some_digits-append f rest h.1 n)

some_digits_all : (d : Text) → IsDigits1 d → some_digits d ≡ some []
some_digits_all d h = rw append-nil at (some_digits-append d [] h tt)

signed-append :
    (s : Text) → IsSigned s → some_digits (skip_sign (λ x. x == b'+' || x == b'-') s) ≡ some []
signed-append [] h = absurd h
signed-append (c ∷ s) (inl (inl e, d)) = rw e (some_digits_all s d)
signed-append (c ∷ s) (inl (inr e, d)) = rw e (some_digits_all s d)
signed-append (c ∷ s) (inr d) = ground (arith, some_digits_all (c ∷ s) d)

exponent_part_all : (e : Text) → IsExp e → exponent_part e ≡ some []
unfolding exponent_part
exponent_part_all [] h = refl
exponent_part_all (c ∷ e) h = ground (arith, signed-append e h.1)

skip_minus :
    (m i rest : Text)
    → IsMinus m
    → IsInt i
    → skip_sign (λ x. x == b'-') (m ++ (i ++ rest)) ≡ i ++ rest
skip_minus m [] rest h k = absurd k
skip_minus m (c ∷ i) rest (inl e) k = rw e (ground arith)
skip_minus m (c ∷ i) rest (inr e) k = rw e refl

-- neither an exponent nor a fraction starts with a digit, and an exponent not with a point
exp_start : (e : Text) → IsExp e → NoDigit e × NoPoint e
unfolding NoPoint
exp_start [] h = (tt, tt)
exp_start (c ∷ e) h = ground arith

frac_start : (f e : Text) → IsFrac f → IsExp e → NoDigit (f ++ e)
frac_start [] e h k = (exp_start e k).0
frac_start (c ∷ f) e h k = rw h.0 refl

pub IsNumber-valid_number : (s : Text) → IsNumber s → valid_number s ≡ true
unfolding valid_number
IsNumber-valid_number s n =
    let (p, q) = exp_start n.exp n.exp_ok in
    let start = frac_start n.frac n.exp n.frac_ok n.exp_ok in
    rw (
      n.splits,
      skip_minus n.minus n.int (n.frac ++ n.exp) n.minus_ok n.int_ok,
      integer_part-append n.int (n.frac ++ n.exp) n.int_ok start,
      fraction_part-append n.frac n.exp n.frac_ok p q,
      exponent_part_all n.exp n.exp_ok,
    )

-- `validNumber` accepts exactly the numbers of RFC 8259.
pub valid_number_iff : (s : Text) → (valid_number s ≡ true) ↔ IsNumber s
valid_number_iff s = (valid_number-IsNumber s, IsNumber-valid_number s)
