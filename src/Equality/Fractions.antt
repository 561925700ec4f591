-- ===== src/Equality/Fractions.antt =====
-- json/patch.go: the comparison of the fractions that `jsonNumberRat` returns is the one of the numbers
-- that they stand for.
use native.Mathlib.Nat.{pow-suc, mul-div_cancel, mul-lt-mul_of_pos_left}
use roundtrip.Base.{
  ℕ, zero, suc, ◌+◌, ◌-◌, ◌*◌, ◌/◌, ◌^◌, ◌<◌, ◌≡◌, refl, ap, sym, ◌∙◌, Bool, true, false, ◌==◌, leb,
  ltb, Bool-cases, inl, inr, arith,
}
use roundtrip.Equality.Numerals.{Decimal, decimal, decimals_equal}
use roundtrip.Equality.{Rat, rat_eq, placed}

pow_pos : (k : ℕ) → 0 < 10 ^ k
pow_pos zero = omega arith
pow_pos (suc k) = let h = pow_pos k in let e = pow-suc 10 k in omega arith

pow_add : (a b : ℕ) → 10 ^ (a + b) ≡ 10 ^ a * 10 ^ b
pow_add a zero = ap (λ z. 10 ^ z) right ∙ once (10 ^ a)
  where
    right : a + 0 ≡ a
    right = omega arith

    once : (p : ℕ) → p ≡ p * 1
    once p = omega arith
pow_add a (suc b) =
    ap (λ z. 10 ^ z) outer
    ∙ pow-suc 10 (a + b)
    ∙ ap (λ p. p * 10) (pow_add a b)
    ∙ regroup (10 ^ a) (10 ^ b)
    ∙ ap (λ p. 10 ^ a * p) (sym (pow-suc 10 b))
  where
    outer : a + suc b ≡ suc (a + b)
    outer = omega arith

    regroup : (p q : ℕ) → p * q * 10 ≡ p * (q * 10)
    regroup p q = grind arith

cancel : (x y n : ℕ) → 0 < n → x * n ≡ y * n → x ≡ y
cancel x y n h e = sym (mul-div_cancel x h) ∙ ap (λ z. z / n) e ∙ mul-div_cancel y h

cross_from :
    (n1 e1 x1 d1 n2 e2 x2 d2 : ℕ)
    → n1 * d1 ≡ x1 * e1
    → n2 * d2 ≡ x2 * e2
    → n1 * e2 ≡ n2 * e1
    → x1 * d2 * (e1 * e2) ≡ x2 * d1 * (e1 * e2)
cross_from n1 e1 x1 d1 n2 e2 x2 d2 h1 h2 h =
    a
    ∙ ap (λ z. z * (d2 * e2)) (sym h1)
    ∙ b
    ∙ ap (λ z. z * (d1 * d2)) h
    ∙ c
    ∙ ap (λ z. z * (d1 * e1)) h2
    ∙ d
  where
    a : x1 * d2 * (e1 * e2) ≡ x1 * e1 * (d2 * e2)
    a = grind arith

    b : n1 * d1 * (d2 * e2) ≡ n1 * e2 * (d1 * d2)
    b = grind arith

    c : n2 * e1 * (d1 * d2) ≡ n2 * d2 * (d1 * e1)
    c = grind arith

    d : x2 * e2 * (d1 * e1) ≡ x2 * d1 * (e1 * e2)
    d = grind arith

mul_pos : (a b : ℕ) → 0 < a → 0 < b → 0 < a * b
mul_pos a b h k = omega (arith, mul-lt-mul_of_pos_left {m = 0} {n = b} {k = a} k h)

-- the fraction stands for the number
pub record Same (r : Rat) (d : Decimal) : Type 0 where
  pub signs : r.negative ≡ d.is_minus
  pub values : r.numerator * 10 ^ d.down ≡ d.mantissa * 10 ^ d.up * r.denominator
  pub positive : 0 < r.denominator

same_tests : (a b c d : ℕ) → (a ≡ b → c ≡ d) → (c ≡ d → a ≡ b) → (a == b) ≡ (c == d)
same_tests a b c d f g = elim (Bool-cases (a == b)) [
  | inl y ↦ let e : c ≡ d = f (ground arith) in rw y (ground arith)
  | inr n ↦ elim (Bool-cases (c == d)) [
    | inl y ↦ let e : a ≡ b = g (ground arith) in absurd (ground arith)
    | inr m ↦ rw (n, m) refl
  ]
]

cross :
    (n1 e1 x1 d1 n2 e2 x2 d2 : ℕ)
    → n1 * d1 ≡ x1 * e1
    → n2 * d2 ≡ x2 * e2
    → 0 < e1
    → 0 < e2
    → 0 < d1
    → 0 < d2
    → (n1 * e2 == n2 * e1) ≡ (x1 * d2 == x2 * d1)
cross n1 e1 x1 d1 n2 e2 x2 d2 h1 h2 p1 p2 q1 q2 =
    same_tests (n1 * e2) (n2 * e1) (x1 * d2) (x2 * d1)
      (λ h.
        cancel (x1 * d2) (x2 * d1) (e1 * e2) (mul_pos e1 e2 p1 p2)
          (cross_from n1 e1 x1 d1 n2 e2 x2 d2 h1 h2 h))
      λ h.
        cancel (n1 * e2) (n2 * e1) (d1 * d2) (mul_pos d1 d2 q1 q2)
          (cross_from x1 d1 n1 e1 x2 d2 n2 e2 (sym h1) (sym h2) h)

zero_test : (n e m u d : ℕ) → n * d ≡ m * u * e → 0 < e → 0 < u → 0 < d → (n == 0) ≡ (m == 0)
zero_test n e m u d h p q r =
    same_tests n 0 m 0
      (λ k.
        cancel m 0 (u * e) (mul_pos u e q p)
          (sym (by_assoc m u e) ∙ sym h ∙ ap (λ z. z * d) k ∙ none_of d (u * e)))
      λ k. cancel n 0 d r (h ∙ ap (λ z. z * u * e) k ∙ none_left u e d)
  where
    by_assoc : (a b c : ℕ) → a * b * c ≡ a * (b * c)
    by_assoc a b c = grind arith

    none_of : (a b : ℕ) → 0 * a ≡ 0 * b
    none_of a b = omega arith

    none_left : (a b c : ℕ) → 0 * a * b ≡ 0 * c
    none_left a b c = grind arith

pub rat_eq-decimals_equal :
    (a b : Rat) (c d : Decimal) → Same a c → Same b d → rat_eq a b ≡ decimals_equal c d
rat_eq-decimals_equal a b c d h k =
    rw
      (
        zero_test a.numerator a.denominator c.mantissa (10 ^ c.up) (10 ^ c.down) h.values h.positive
            (pow_pos c.up) (pow_pos c.down),
        zero_test b.numerator b.denominator d.mantissa (10 ^ d.up) (10 ^ d.down) k.values k.positive
            (pow_pos d.up) (pow_pos d.down),
        cross a.numerator a.denominator (c.mantissa * 10 ^ c.up) (10 ^ c.down) b.numerator
            b.denominator (d.mantissa * 10 ^ d.up) (10 ^ d.down) h.values k.values h.positive
            k.positive (pow_pos c.down) (pow_pos d.down),
        h.signs,
        k.signs,
      )
      refl

-- `placed` is the fraction of a number whose exponent fits.
pub placed-Same :
    (m sh : Bool) (n scale k : ℕ)
    → (decimal m scale (sh, k) n).up + (decimal m scale (sh, k) n).down < 2 ^ 63
    → Same (placed m n scale (record { minus = sh; size = k })) (decimal m scale (sh, k) n)
placed-Same m true n scale k h =
    let fits : ltb (scale + k) (2 ^ 63) ≡ true = ground arith in
    rw fits (record {
      signs = refl;
      values = ap (λ z. z * 10 ^ (scale + k)) (once n);
      positive = pow_pos (scale + k);
    })
  where
    once : (n : ℕ) → n ≡ n * 1
    once n = omega arith
placed-Same m false n scale k h = elim (Bool-cases (leb scale k)) [
  | inl y ↦
      let split : 10 ^ (k - scale) * 10 ^ scale ≡ 10 ^ k =
        sym (pow_add (k - scale) scale) ∙ ap (λ z. 10 ^ z) (ground arith) in
      rw y (record {
        signs = refl;
        values = to_whole n (10 ^ (k - scale)) (10 ^ scale) (10 ^ k) split;
        positive = omega arith;
      })
  | inr y ↦
      let split : 10 ^ k * 10 ^ (scale - k) ≡ 10 ^ scale =
        sym (pow_add k (scale - k)) ∙ ap (λ z. 10 ^ z) (ground arith) in
      rw y (record {
        signs = refl;
        values = to_part n (10 ^ k) (10 ^ (scale - k)) (10 ^ scale) split;
        positive = pow_pos (scale - k);
      })
]
  where
    to_whole : (n p q r : ℕ) → p * q ≡ r → n * p * q ≡ n * r * 1
    to_whole n p q r e = grind arith

    to_part : (n p q r : ℕ) → p * q ≡ r → n * r ≡ n * p * q
    to_part n p q r e = grind arith
