-- ===== src/Tree/Indentation/Agreement.antt =====
-- json/indent.go: what the detected indentation says of the document's lines.
use native.Mathlib.Nat.{mul-div_cancel_left, mul-mod_right, suc-mul}
use roundtrip.Base.{
  take, ℕ, zero, suc, ◌+◌, ◌*◌, ◌/◌, ◌%◌, ◌≡◌, ◌≢◌, ◌↔◌, inl, inr, refl, ap, sym, ◌∙◌, Text, List,
  [], ◌∷◌, ◌++◌, Bool, true, false, ◌||◌, Option, none, some, ◌==◌, Bool-cases, length,
  length-append, All, text_eq, text_eq→eq, text_eq_refl, ne_of_text_eq, arith, subst,
}
use roundtrip.Decoder.{Node, start_of}
use roundtrip.TokenList.Ranges.{ahead}
use roundtrip.TokenList.{Elem}
use roundtrip.Tree.Indentation.{
  walk_indent, line_indent, repeat, Detection, is_empty, stopped, observe_candidate, observe_prefix,
  observe, detect_from, detected, detect_indent,
}

-- A line that is indented by `prefix` agrees with the indentation `t` of one level.
abbrev pub LineAgrees : Text → Option Text → ℕ → Type 0
LineAgrees t none depth = Unit
LineAgrees t (some prefix) zero = Unit
LineAgrees t (some []) (suc depth) = Unit
LineAgrees t (some (c ∷ cs)) (suc depth) = c ∷ cs ≡ repeat t (suc depth)

abbrev pub is_indented : Option Text → ℕ → Bool
is_indented none depth = false
is_indented (some prefix) zero = false
is_indented (some []) (suc depth) = false
is_indented (some (c ∷ cs)) (suc depth) = true

-- the same for a node that is visited
abbrev pub Agrees : List Elem → Text → Node × ℕ → Type 0
Agrees es t (n, depth) = LineAgrees t (line_indent (ahead es (start_of n))) depth

abbrev pub any_indented : List Elem → List (Node × ℕ) → Bool
any_indented es [] = false
any_indented es ((n, depth) ∷ more) =
    is_indented (line_indent (ahead es (start_of n))) depth || any_indented es more

length-repeat : (t : Text) (d : ℕ) → length (repeat t d) ≡ d * length t
length-repeat t zero = omega arith
length-repeat t (suc d) =
    length-append t (repeat t d)
    ∙ ap (λ n. length t + n) (length-repeat t d)
    ∙ omega (arith, suc-mul d (length t))

take-append : (t s : Text) → take (length t) (t ++ s) ≡ t
take-append [] s = refl
take-append (c ∷ t) s = ap (◌∷◌ c) (take-append t s)

module _ (t p : Text) (k : ℕ) (e : p ≡ repeat t (suc k)) where
  repeat_length : length p ≡ suc k * length t
  repeat_length = ap length e ∙ length-repeat t (suc k)

  repeat_mod : length p % suc k ≡ 0
  repeat_mod = ap (λ n. n % suc k) repeat_length ∙ mul-mod_right (suc k) (length t)

  repeat_take : take (length p / suc k) p ≡ t
  repeat_take =
      ap (λ n. take n p)
        (ap (λ n. n / suc k) repeat_length ∙ mul-div_cancel_left (length t) (omega arith))
      ∙ ap (take (length t)) e
      ∙ take-append t (repeat t k)

-- A prefix that is not empty is a repetition of one text, or of none.
data Levels (c : ℕ) (cs : Text) (k : ℕ) : Type 0 where
  levels :
      (t : Text)
      → c ∷ cs ≡ repeat t (suc k)
      → ((s : Detection) → observe_prefix s (c ∷ cs) (suc k) ≡ observe_candidate s t)
      → Levels c cs k
  uneven :
      ((t : Text) → c ∷ cs ≢ repeat t (suc k))
      → ((s : Detection) → observe_prefix s (c ∷ cs) (suc k) ≡ stopped s)
      → Levels c cs k

split_prefix : (c : ℕ) (cs : Text) (k : ℕ) → Levels c cs k
split_prefix c cs k = elim (Bool-cases (length (c ∷ cs) % suc k == 0)) [
  | inr n ↦
      uneven (λ t e. let z = repeat_mod t (c ∷ cs) k e in absurd (ground arith)) (λ s. rw n refl)
  | inl y ↦
      elim (Bool-cases
        (text_eq (repeat (take (length (c ∷ cs) / suc k) (c ∷ cs)) (suc k)) (c ∷ cs))) [
          | inl q ↦ levels _ (sym (text_eq→eq _ _ q)) (λ s. rw (y, q) refl)
          | inr r ↦
              uneven
                (λ t e.
                  ne_of_text_eq _ _ r
                    (ap (λ x. repeat x (suc k)) (repeat_take t (c ∷ cs) k e) ∙ sym e))
                (λ s. rw (y, r) refl)
        ]
]

repeat_empty : (n : ℕ) → repeat [] n ≡ []
repeat_empty zero = refl
repeat_empty (suc n) = repeat_empty n

-- what a line does to the detection
data Line (o : Option Text) (depth : ℕ) : Type 0 where
  plain :
      ((s : Detection) → observe s o depth ≡ s)
      → is_indented o depth ≡ false
      → ((t : Text) → LineAgrees t o depth)
      → Line o depth
  even :
      (t : Text)
      → t ≢ []
      → LineAgrees t o depth
      → ((s : Detection) → observe s o depth ≡ observe_candidate s t)
      → is_indented o depth ≡ true
      → ((t' : Text) → LineAgrees t' o depth → t' ≡ t)
      → Line o depth
  odd :
      ((t : Text) → ¬ LineAgrees t o depth)
      → ((s : Detection) → observe s o depth ≡ stopped s)
      → Line o depth

line_of : (o : Option Text) (depth : ℕ) → Line o depth
line_of none depth = plain (λ s. refl) refl (λ t. tt)
line_of (some p) zero = plain (λ s. refl) refl (λ t. tt)
line_of (some []) (suc k) =
    let z : (suc k == 0) ≡ false = ground arith in plain (λ s. rw z refl) refl (λ t. tt)
line_of (some (c ∷ cs)) (suc k) = by_levels (split_prefix c cs k)
  where
    deep : (s : Detection) → observe s (some (c ∷ cs)) (suc k) ≡ observe_prefix s (c ∷ cs) (suc k)
    deep s = let z : (suc k == 0) ≡ false = ground arith in rw z refl

    by_levels : Levels c cs k → Line (some (c ∷ cs)) (suc k)
    by_levels (uneven none_is o) = odd none_is (λ s. deep s ∙ o s)
    by_levels (levels t e o) =
        even t
          (λ z.
            let q : c ∷ cs ≡ [] = e ∙ ap (λ x. repeat x (suc k)) z ∙ repeat_empty (suc k) in cc q)
          e (λ s. deep s ∙ o s) refl
          (λ t' e'. sym (repeat_take t' (c ∷ cs) k e') ∙ repeat_take t (c ∷ cs) k e)

abbrev at : Text → Detection
at t = record { indent = t; ok = true; going = true }

abbrev start : Detection
start = record { indent = []; ok = false; going = true }

not_empty : (t : Text) → t ≢ [] → is_empty t ≡ false
not_empty [] n = absurd (n refl)
not_empty (c ∷ cs) n = refl

module _ (es : List Elem) where
  from_at :
      (t : Text) (ls : List (Node × ℕ)) (u : Text)
      → t ≢ []
      → u ≢ []
      → detected (detect_from es (at t) ls) ≡ u
      → (u ≡ t) × All (Agrees es t) ls
  unfolding detect_from
  from_at t [] u nt nu h = (sym h, tt)
  from_at t ((n, d) ∷ ls) u nt nu h = elim (line_of (line_indent (ahead es (start_of n))) d) [
    | plain o i a ↦ let (x, y) = from_at t ls u nt nu (rw (o (at t)) at h) in (x, (a t, y))
    | odd a o ↦ absurd (nu (sym (rw (o (at t)) at h)))
    | even c nc a o i un ↦ elim (Bool-cases (text_eq c t)) [
      | inl y ↦
          let q : c ≡ t = text_eq→eq c t y in
          let (x, z) = from_at t ls u nt nu (rw (o (at t), not_empty t nt, y) at h) in
          (x, (subst (λ l. LineAgrees l (line_indent (ahead es (start_of n))) d) q a, z))
      | inr r ↦ absurd (nu (sym (rw (o (at t), not_empty t nt, r) at h)))
    ]
  ]

  from_start :
      (ls : List (Node × ℕ)) (u : Text)
      → u ≢ []
      → detected (detect_from es start ls) ≡ u
      → All (Agrees es u) ls × (any_indented es ls ≡ true)
  unfolding detect_from
  from_start [] u nu h = absurd (nu (sym h))
  from_start ((n, d) ∷ ls) u nu h = elim (line_of (line_indent (ahead es (start_of n))) d) [
    | plain o i a ↦ let (x, y) = from_start ls u nu (rw (o start) at h) in ((a u, x), rw i y)
    | odd a o ↦ absurd (nu (sym (rw (o start) at h)))
    | even c nc a o i un ↦
        let (q, z) = from_at c ls u nc nu (rw (o start) at h) in
        (
          subst (λ l. LineAgrees l (line_indent (ahead es (start_of n))) d × All (Agrees es l) ls)
              (sym q) (a, z),
          rw i refl,
        )
  ]

  at_stays :
      (t : Text) (ls : List (Node × ℕ))
      → t ≢ []
      → All (Agrees es t) ls
      → detect_from es (at t) ls ≡ at t
  unfolding detect_from
  at_stays t [] nt a = refl
  at_stays t ((n, d) ∷ ls) nt (a, more) = elim (line_of (line_indent (ahead es (start_of n))) d) [
    | plain o i _ ↦ rw (o (at t)) (at_stays t ls nt more)
    | odd none_is o ↦ absurd (none_is t a)
    | even c nc _ o i un ↦
        let same : text_eq c t ≡ true = ap (λ x. text_eq c x) (un t a) ∙ text_eq_refl c in
        rw (o (at t), not_empty t nt, same) (at_stays t ls nt more)
  ]

  start_finds :
      (t : Text) (ls : List (Node × ℕ))
      → t ≢ []
      → All (Agrees es t) ls
      → any_indented es ls ≡ true
      → detected (detect_from es start ls) ≡ t
  unfolding detect_from
  start_finds t [] nt a h = cc
  start_finds t ((n, d) ∷ ls) nt (a, more) h =
      elim (line_of (line_indent (ahead es (start_of n))) d) [
        | plain o i _ ↦ rw (o start) (start_finds t ls nt more (rw i at h))
        | odd none_is o ↦ absurd (none_is t a)
        | even c nc _ o i un ↦ rw (o start) (
            ap detected
              (subst (λ x. detect_from es (at x) ls ≡ at t) (un t a) (at_stays t ls nt more)))
      ]

  -- `detectIndent` returns the text `t`, which is not empty, if and only if a node below the root starts
  -- on an indented line, and every node that starts a line with a prefix of whitespace has a prefix that
  -- repeats `t` as often as the node is deep; nodes of depth zero are not looked at.
  pub detect_indent_iff :
      (root : Node) (t : Text)
      → t ≢ []
      → (detect_indent es root ≡ t)
        ↔ (All (Agrees es t) (walk_indent root 0) × (any_indented es (walk_indent root 0) ≡ true))
  unfolding detect_indent
  detect_indent_iff root t nt =
      (from_start (walk_indent root 0) t nt, λ h. start_finds t (walk_indent root 0) nt h.0 h.1)
