-- ===== src/Number/Grammar.antt =====
-- json/util.go, `validNumber`, against the grammar of RFC 8259, section 6:
-- number = [ minus ] int [ frac ] [ exp ].
use roundtrip.Base.{
  ◌≡◌, ◌≢◌, refl, ap, ◌∙◌, ◌⊎◌, inl, inr, Text, codes, [], ◌∷◌, ◌++◌, true, false, ◌==◌, some,
  Bool-cases, arith, All,
}
use roundtrip.Chars.{ascii_digit}
use roundtrip.Number.{skip_digits, some_digits, integer_part, fraction_part}

abbrev pub IsDigits : Text → Type 0
IsDigits = All (λ c. ascii_digit c ≡ true)

-- 1*DIGIT
abbrev pub IsDigits1 : Text → Type 0
IsDigits1 [] = ⊥
IsDigits1 (c ∷ s) = (ascii_digit c ≡ true) × IsDigits s

-- zero / ( digit1-9 *DIGIT )
abbrev pub IsInt : Text → Type 0
IsInt [] = ⊥
IsInt (c ∷ s) = ((c ≡ b'0') × (s ≡ [])) ⊎ ((c ≢ b'0') × (ascii_digit c ≡ true) × IsDigits s)

-- decimal-point 1*DIGIT, or nothing
abbrev pub IsFrac : Text → Type 0
IsFrac [] = Unit
IsFrac (c ∷ s) = (c ≡ b'.') × IsDigits1 s

-- the digits of an exponent, with a sign or without
abbrev pub IsSigned : Text → Type 0
IsSigned [] = ⊥
IsSigned (c ∷ s) = (((c ≡ b'+') ⊎ (c ≡ b'-')) × IsDigits1 s) ⊎ IsDigits1 (c ∷ s)

-- e [ minus / plus ] 1*DIGIT, or nothing
abbrev pub IsExp : Text → Type 0
IsExp [] = Unit
IsExp (c ∷ s) = ((c ≡ b'e') ⊎ (c ≡ b'E')) × IsSigned s

abbrev pub IsMinus : Text → Type 0
IsMinus m = (m ≡ []) ⊎ (m ≡ codes "-")

pub record IsNumber (s : Text) : Type 0 where
  pub minus : Text
  pub int : Text
  pub frac : Text
  pub exp : Text
  pub minus_ok : IsMinus minus
  pub int_ok : IsInt int
  pub frac_ok : IsFrac frac
  pub exp_ok : IsExp exp
  pub splits : s ≡ minus ++ (int ++ (frac ++ exp))

-- a text that does not start with a digit
abbrev pub NoDigit : Text → Type 0
NoDigit [] = Unit
NoDigit (c ∷ _) = ascii_digit c ≡ false

-- What a part took is its grammar, and what it leaves starts with no digit.
pub record Took (P : Text → Type 0) (s rest : Text) : Type 0 where
  pub part : Text
  pub part_ok : P part
  pub splits : s ≡ part ++ rest

skip_digits-Took : (s : Text) → Took IsDigits s (skip_digits s)
unfolding skip_digits
skip_digits-Took [] = record { part = []; part_ok = tt; splits = refl }
skip_digits-Took (c ∷ s) = elim (Bool-cases (ascii_digit c)) [
  | inl y ↦
      let t = skip_digits-Took s in
      rw (y, skip_digits)
        (record { part = c ∷ t.part; part_ok = (y, t.part_ok); splits = ap (◌∷◌ c) t.splits })
  | inr n ↦ rw (n, skip_digits) (record { part = []; part_ok = tt; splits = refl })
]

pub some_digits-Took : (s rest : Text) → some_digits s ≡ some rest → Took IsDigits1 s rest
unfolding some_digits
some_digits-Took [] rest h = cc
some_digits-Took (c ∷ s) rest h = elim (Bool-cases (ascii_digit c)) [
  | inl y ↦
      let t = skip_digits-Took s in
      let e : skip_digits s ≡ rest = ground arith in
      record {
        part = c ∷ t.part;
        part_ok = (y, t.part_ok);
        splits = ap (◌∷◌ c) t.splits ∙ ap (λ x. c ∷ t.part ++ x) e;
      }
  | inr n ↦ absurd (ground arith)
]

pub integer_part-Took : (s rest : Text) → integer_part s ≡ some rest → Took IsInt s rest
unfolding integer_part
integer_part-Took [] rest h = cc
integer_part-Took (c ∷ s) rest h = elim (Bool-cases (c == b'0')) [
  | inl z ↦ record { part = c ∷ []; part_ok = inl (ground arith, refl); splits = ground arith }
  | inr z ↦ elim (Bool-cases (ascii_digit c)) [
    | inl y ↦
        let t = skip_digits-Took s in
        let e : skip_digits s ≡ rest = ground arith in
        record {
          part = c ∷ t.part;
          part_ok = inr (ground arith, y, t.part_ok);
          splits = ap (◌∷◌ c) t.splits ∙ ap (λ x. c ∷ t.part ++ x) e;
        }
    | inr n ↦ absurd (ground arith)
  ]
]

pub fraction_part-Took : (s rest : Text) → fraction_part s ≡ some rest → Took IsFrac s rest
unfolding fraction_part
fraction_part-Took [] rest h = record { part = []; part_ok = tt; splits = cc }
fraction_part-Took (c ∷ s) rest h = elim (Bool-cases (c == b'.')) [
  | inl y ↦
      let t = some_digits-Took s rest (ground arith) in
      record {
        part = c ∷ t.part;
        part_ok = (ground arith, t.part_ok);
        splits = ap (◌∷◌ c) t.splits;
      }
  | inr n ↦ record { part = []; part_ok = tt; splits = ground arith }
]
