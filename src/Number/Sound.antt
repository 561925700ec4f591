-- ===== src/Number/Sound.antt =====
-- json/util.go: what `validNumber` accepts is a number of the grammar.
use roundtrip.Base.{
  ℕ, ◌≡◌, refl, ap, ◌∙◌, inl, inr, Text, codes, [], ◌∷◌, ◌++◌, Bool, true, ◌||◌, ◌==◌, Option, none,
  some, Bool-cases, arith, append-nil,
}
use roundtrip.Number.Grammar.{
  IsDigits1, IsExp, IsSigned, IsMinus, IsNumber, Took, some_digits-Took, integer_part-Took,
  fraction_part-Took,
}
use roundtrip.Number.{
  some_digits, skip_sign, integer_part, fraction_part, exponent_part, ends, ◌>>=◌, valid_number,
}

abbrev sign_rune : ℕ → Bool
sign_rune x = x == b'+' || x == b'-'

IsSigned-Took :
    (s rest : Text) → some_digits (skip_sign sign_rune s) ≡ some rest → Took IsSigned s rest
IsSigned-Took [] rest h = unfold some_digits in cc
IsSigned-Took (c ∷ s) rest h = elim (Bool-cases (sign_rune c)) [
  | inl y ↦
      let t = some_digits-Took s rest (rw y at h) in
      record {
        part = c ∷ t.part;
        part_ok = inl (ground arith, t.part_ok);
        splits = ap (◌∷◌ c) t.splits;
      }
  | inr n ↦ unsigned (some_digits-Took (c ∷ s) rest (rw n at h))
]
  where
    unsigned : Took IsDigits1 (c ∷ s) rest → Took IsSigned (c ∷ s) rest
    unsigned t = go t.part t.part_ok t.splits
      where
        go : (p : Text) → IsDigits1 p → c ∷ s ≡ p ++ rest → Took IsSigned (c ∷ s) rest
        go [] k e = absurd k
        go (d ∷ p) k e = record { part = d ∷ p; part_ok = inr k; splits = e }

exponent_part-Took : (s rest : Text) → exponent_part s ≡ some rest → Took IsExp s rest
unfolding exponent_part
exponent_part-Took [] rest h = record { part = []; part_ok = tt; splits = cc }
exponent_part-Took (c ∷ s) rest h = elim (Bool-cases (c == b'e' || c == b'E')) [
  | inl y ↦
      let t = IsSigned-Took s rest (rw y at h) in
      record {
        part = c ∷ t.part;
        part_ok = (ground arith, t.part_ok);
        splits = ap (◌∷◌ c) t.splits;
      }
  | inr n ↦ record { part = []; part_ok = tt; splits = ground arith }
]

skip-IsMinus-Took : (s : Text) → Took IsMinus s (skip_sign (λ x. x == b'-') s)
skip-IsMinus-Took [] = record { part = []; part_ok = inl refl; splits = refl }
skip-IsMinus-Took (c ∷ s) = elim (Bool-cases (c == b'-')) [
  | inl y ↦
      rw y
        (record { part = codes "-"; part_ok = inr refl; splits = ap (λ x. x ∷ s) (ground arith) })
  | inr n ↦ rw n (record { part = []; part_ok = inl refl; splits = refl })
]

ends-some : (o : Option Text) → ends o ≡ true → o ≡ some []
ends-some none h = cc
ends-some (some []) h = refl
ends-some (some (c ∷ s)) h = cc

bind-some :
    (o : Option Text) (f : Text → Option Text) (r : Text)
    → (o >>= f) ≡ some r
    → (a : Text) × (o ≡ some a) × (f a ≡ some r)
bind-some none f r h = cc
bind-some (some a) f r h = (a, refl, h)

pub valid_number-IsNumber : (s : Text) → valid_number s ≡ true → IsNumber s
unfolding valid_number
valid_number-IsNumber s h =
    let m = skip-IsMinus-Took s in
    let body = skip_sign (λ x. x == b'-') s in
    let (i, ei, hi) =
      bind-some (integer_part body) (λ x. fraction_part x >>= (λ f. exponent_part f)) []
        (ends-some _ h) in
    let (f, ef, hf) = bind-some (fraction_part i) exponent_part [] hi in
    let a = integer_part-Took _ i ei in
    let b = fraction_part-Took i f ef in
    let c = exponent_part-Took f [] hf in
    record {
      minus = m.part;
      int = a.part;
      frac = b.part;
      exp = c.part;
      minus_ok = m.part_ok;
      int_ok = a.part_ok;
      frac_ok = b.part_ok;
      exp_ok = c.part_ok;
      splits =
          m.splits
          ∙ ap (λ x. m.part ++ x)
              (a.splits
                ∙ ap (λ x. a.part ++ x)
                    (b.splits ∙ ap (λ x. b.part ++ x) (c.splits ∙ append-nil c.part)));
    }
