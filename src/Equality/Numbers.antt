-- ===== src/Equality/Numbers.antt =====
-- json/patch.go: `jsonNumbersEqual` compares the numbers that decimal notation stands for.
use roundtrip.Base.{
  [], ℕ, ◌+◌, ◌^◌, ◌<◌, ◌≡◌, refl, ◌∙◌, Text, ◌∷◌, ◌++◌, Bool, true, false, ◌&&◌, ◌==◌, Bool-cases,
  inl, inr, Option, none, some, length, append-nil, append_assoc, arith,
}
use roundtrip.Chars.{ascii_digit}
use roundtrip.Equality.Cuts.{
  all_digits, cut_at-found, cut_at-missing, cut_at-digits, cut_at-cons, digits-digits_number,
  digits_number-digits, leading_digits-all, atoi-exponent_of,
}
use roundtrip.Equality.Fractions.{Same, placed-Same}
use roundtrip.Equality.Numerals.{
  Decimal, digits_number, power, decimal, with_power, behind_whole, unsigned_decimal, decimal_of,
}
use roundtrip.Equality.{
  Rat, cut_at, Signed, placed, with_digits, of_mantissa, unsigned_rat, json_number_rat, flip,
}
use roundtrip.Pointer.{on_some}

-- the fraction that is read from a text without a sign stands for the number
abbrev Stands : Bool → Text → Decimal → Type 0
Stands m s d = (r : Rat) × (unsigned_rat m s ≡ some r) × Same r d

on_some_inv :
    {A B : Type 0} (f : A → B) (o : Option A) (b : B)
    → on_some f o ≡ some b
    → (a : A) × (o ≡ some a) × (f a ≡ b)
on_some_inv f none b h = cc h
on_some_inv f (some a) b h = (a, refl, cc h)

flip_plus : (m : Bool) → flip m false ≡ m
flip_plus true = refl
flip_plus false = refl

with_digits-digits_number :
    (m : Bool) (ds : Text) (n scale : ℕ) (e : Signed)
    → digits_number ds ≡ some n
    → with_digits m ds scale e ≡ some (placed m n scale e)
with_digits-digits_number m [] n scale e h = cc h
with_digits-digits_number m (c ∷ s) n scale e h =
    let all : (ascii_digit c && all_digits s) ≡ true = digits_number-digits (c ∷ s) n h in
    let a : (c == b'-') ≡ false = ground arith in
    let b : (c == b'+') ≡ false = ground arith in
    rw (a, b, digits-digits_number (c ∷ s), h, flip_plus m) refl

-- the exponent that is written at the end, cut off at its mark
with_exponent-power :
    (m : Bool) (M q : Text) (sh : Bool) (k : ℕ)
    → cut_at b'e' M ≡ none
    → cut_at b'E' M ≡ none
    → power q ≡ some (sh, k)
    → k < 2 ^ 63
    → unsigned_rat m (M ++ q)
      ≡ of_mantissa m M (cut_at b'.' M) (some (record { minus = sh; size = k }))
with_exponent-power m M [] sh k he hE hp l =
    let a : false ≡ sh = cc hp in let b : 0 ≡ k = cc hp in rw (append-nil M, he, hE, ← a, ← b) refl
with_exponent-power m M (c ∷ x) sh k he hE hp l = elim (Bool-cases (c == b'e')) [
  | inl y ↦
      let q : c ≡ b'e' = ground arith in
      let (ha, _) = atoi-exponent_of x sh k (rw y at hp) l in
      rw (q, cut_at-found b'e' M x he, ha) refl
  | inr n ↦ elim (Bool-cases (c == b'E')) [
    | inl y ↦
        let q : c ≡ b'E' = ground arith in
        let (ha, hx) = atoi-exponent_of x sh k (rw (n, y) at hp) l in
        rw
          (
            q,
            cut_at-missing b'e' M (b'E' ∷ x) he (cut_at-cons b'e' b'E' x refl hx),
            cut_at-found b'E' M x hE,
            ha,
          )
          refl
    | inr p ↦ cc (rw (n, p) at hp)
  ]
]

up_bound :
    (m sh : Bool) (n scale k : ℕ)
    → (decimal m scale (sh, k) n).up + (decimal m scale (sh, k) n).down < 2 ^ 63
    → k < 2 ^ 63
up_bound m true n scale k h = omega arith
up_bound m false n scale k h = omega arith

-- a number whose mantissa is the text `M`, with `f` behind the point
mantissa-Stands :
    (m : Bool) (M w f q : Text) (d : Decimal)
    → cut_at b'e' M ≡ none
    → cut_at b'E' M ≡ none
    → ((e : Signed)
        → of_mantissa m M (cut_at b'.' M) (some e) ≡ with_digits m (w ++ f) (length f) e)
    → with_power m w f (power q) ≡ some d
    → d.up + d.down < 2 ^ 63
    → Stands m (M ++ q) d
mantissa-Stands m M w f q d he hE split h l = by_power (power q) refl h
  where
    by_power :
        (o : Option (Bool × ℕ)) → power q ≡ o → with_power m w f o ≡ some d → Stands m (M ++ q) d
    by_power none p h = cc h
    by_power (some (sh, k)) p h =
        let (n, hn, hd) = on_some_inv (decimal m (length f) (sh, k)) (digits_number (w ++ f)) d h in
        let fits : (decimal m (length f) (sh, k) n).up + (decimal m (length f) (sh, k) n).down
            < 2 ^ 63 =
          rw hd l in
        rw (← hd) (
          placed m n (length f) (record { minus = sh; size = k }),
          with_exponent-power m M q sh k he hE p (up_bound m sh n (length f) k fits)
              ∙ split (record { minus = sh; size = k })
              ∙ with_digits-digits_number m (w ++ f) n (length f) (record { minus = sh; size = k })
                  hn,
          placed-Same m sh n (length f) k fits,
        )

whole-Stands :
    (m : Bool) (w q : Text) (d : Decimal)
    → all_digits w ≡ true
    → with_power m w [] (power q) ≡ some d
    → d.up + d.down < 2 ^ 63
    → Stands m (w ++ q) d
whole-Stands m w q d a h l =
    mantissa-Stands m w w [] q d (cut_at-digits b'e' w refl a) (cut_at-digits b'E' w refl a)
      (λ e. rw (cut_at-digits b'.' w refl a, append-nil w) refl) h l

point-Stands :
    (m : Bool) (w f q : Text) (d : Decimal)
    → all_digits w ≡ true
    → all_digits f ≡ true
    → with_power m w f (power q) ≡ some d
    → d.up + d.down < 2 ^ 63
    → Stands m ((w ++ b'.' ∷ f) ++ q) d
point-Stands m w f q d a b h l =
    mantissa-Stands m (w ++ b'.' ∷ f) w f q d
      (cut_at-missing b'e' w (b'.' ∷ f) (cut_at-digits b'e' w refl a)
        (cut_at-cons b'e' b'.' f refl (cut_at-digits b'e' f refl b)))
      (cut_at-missing b'E' w (b'.' ∷ f) (cut_at-digits b'E' w refl a)
        (cut_at-cons b'E' b'.' f refl (cut_at-digits b'E' f refl b)))
      (λ e. rw (cut_at-found b'.' w f (cut_at-digits b'.' w refl a)) refl) h l

unsigned-Stands :
    (m : Bool) (s : Text) (d : Decimal)
    → unsigned_decimal m s ≡ some d
    → d.up + d.down < 2 ^ 63
    → Stands m s d
unsigned-Stands m s d h l =
    let (w, r, e, j, a) = leading_digits-all s in rw (← j) (by_rest w r a (rw e at h))
  where
    by_rest :
        (w r : Text) → all_digits w ≡ true → behind_whole m (w, r) ≡ some d → Stands m (w ++ r) d
    by_rest w [] a h = whole-Stands m w [] d a h l
    by_rest w (c ∷ r) a h = elim (Bool-cases (c == b'.')) [
      | inr n ↦ whole-Stands m w (c ∷ r) d a (rw n at h) l
      | inl y ↦
          let (f, q, e, j, b) = leading_digits-all r in
          let p : c ≡ b'.' = ground arith in
          let k : with_power m w f (power q) ≡ some d = rw (y, e) at h in
          rw (p, ← j, ← append_assoc w (b'.' ∷ f) q) (point-Stands m w f q d a b k l)
    ]

-- `jsonNumberRat` reads decimal notation whose exponent fits as the fraction that it stands for.
pub json_number_rat-Same :
    (s : Text) (d : Decimal)
    → decimal_of s ≡ some d
    → d.up + d.down < 2 ^ 63
    → (r : Rat) × (json_number_rat s ≡ some r) × Same r d
unfolding json_number_rat
json_number_rat-Same [] d h l = cc h
json_number_rat-Same (c ∷ s) d h l = elim (Bool-cases (c == b'-')) [
  | inl y ↦ let (r, e, k) = unsigned-Stands true s d (rw y at h) l in (r, rw y e, k)
  | inr n ↦ elim (Bool-cases (c == b'+')) [
    | inl y ↦ let (r, e, k) = unsigned-Stands false s d (rw (n, y) at h) l in (r, rw (n, y) e, k)
    | inr p ↦
        let (r, e, k) = unsigned-Stands false (c ∷ s) d (rw (n, p) at h) l in (r, rw (n, p) e, k)
  ]
]
