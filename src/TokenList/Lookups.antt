-- ===== src/TokenList/Lookups.antt =====
-- internal/list/list.go: the value at an address in lists that are joined, spliced or copied.
use roundtrip.Base.{
  ℕ, ◌+◌, ◌<◌, ◌≤◌, ◌≡◌, refl, ap, ◌∙◌, List, [], ◌∷◌, ◌++◌, true, false, Bool-cases, ◌⊎◌, inl, inr,
  Option-cases, some, ◌==◌, All, arith,
}
use roundtrip.Linked.Segments.{has, Distinct, Disjoint, Distinct-append}
use roundtrip.Token.{Token}
use roundtrip.TokenList.{Elem, value_at}
use roundtrip.TokenList.Ranges.{copies, copy_of, splice_after}

abbrev pub Apart : ℕ → List Elem → Type 0
Apart i es = All (λ e. (e.id == i) ≡ false) es

abbrev pub Newer : List Elem → ℕ → Type 0
Newer es k = All (λ e. k ≤ e.id) es

pub Newer-Apart : (es : List Elem) (k i : ℕ) → Newer es k → i < k → Apart i es
Newer-Apart [] k i h l = tt
Newer-Apart (e ∷ es) k i (a, h) l = (ground arith, Newer-Apart es k i h l)

pub Older-Apart : (es : List Elem) (k i : ℕ) → All (λ e. e.id < k) es → k ≤ i → Apart i es
Older-Apart [] k i h l = tt
Older-Apart (e ∷ es) k i (a, h) l = (ground arith, Older-Apart es k i h l)

pub Newer-weaken : (es : List Elem) (k l : ℕ) → Newer es l → k ≤ l → Newer es k
Newer-weaken [] k l h le = tt
Newer-weaken (e ∷ es) k l (a, h) le = (omega arith, Newer-weaken es k l h le)

pub Newer-append : (xs ys : List Elem) (k : ℕ) → Newer xs k → Newer ys k → Newer (xs ++ ys) k
Newer-append [] ys k a b = b
Newer-append (x ∷ xs) ys k (h, a) b = (h, Newer-append xs ys k a b)

pub value_at-left :
    (xs ys : List Elem) (i : ℕ) (t : Token)
    → value_at xs i ≡ some t
    → value_at (xs ++ ys) i ≡ some t
unfolding value_at
value_at-left [] ys i t h = cc h
value_at-left (x ∷ xs) ys i t h = elim (Bool-cases (x.id == i)) [
  | inl y ↦ rw y (rw y at h)
  | inr n ↦ rw n (value_at-left xs ys i t (rw n at h))
]

pub value_at-right :
    (xs ys : List Elem) (i : ℕ) → Apart i xs → value_at (xs ++ ys) i ≡ value_at ys i
unfolding value_at
value_at-right [] ys i h = refl
value_at-right (x ∷ xs) ys i (n, h) = rw n (value_at-right xs ys i h)

pub value_at-Older :
    (es : List Elem) (k i : ℕ) (t : Token) → value_at es i ≡ some t → All (λ e. e.id < k) es → i < k
unfolding value_at
value_at-Older [] k i t h o = cc h
value_at-Older (e ∷ es) k i t h (l, o) = elim (Bool-cases (e.id == i)) [
  | inl y ↦ ground arith
  | inr n ↦ value_at-Older es k i t (rw n at h) o
]

pub value_at-Newer :
    (es : List Elem) (k i : ℕ) (t : Token) → value_at es i ≡ some t → Newer es k → k ≤ i
unfolding value_at
value_at-Newer [] k i t h o = cc h
value_at-Newer (e ∷ es) k i t h (l, o) = elim (Bool-cases (e.id == i)) [
  | inl y ↦ ground arith
  | inr n ↦ value_at-Newer es k i t (rw n at h) o
]

splice_after_inv :
    (e : Elem) (es : List Elem) (mark : ℕ) (new fs : List Elem)
    → splice_after (e ∷ es) mark new ≡ some fs
    → (e ∷ (new ++ es) ≡ fs)
      ⊎ ((gs : List Elem) × (splice_after es mark new ≡ some gs) × (e ∷ gs ≡ fs))
unfolding splice_after
splice_after_inv e es mark new fs h = elim (Bool-cases (e.id == mark)) [
  | inl y ↦ inl (cc (rw y at h))
  | inr m ↦ elim (Option-cases (splice_after es mark new)) [
    | inl o ↦ absurd (ground arith)
    | inr (gs, o) ↦ inr (gs, o, ground arith)
  ]
]

-- Splicing keeps the values of the list, and those of what is spliced in.
pub splice_after-keeps :
    (es : List Elem) (mark : ℕ) (new fs : List Elem) (i : ℕ) (t : Token)
    → splice_after es mark new ≡ some fs
    → Apart i new
    → value_at es i ≡ some t
    → value_at fs i ≡ some t
unfolding splice_after value_at
splice_after-keeps [] mark new fs i t h a v = cc h
splice_after-keeps (e ∷ es) mark new fs i t h a v = elim (splice_after_inv e es mark new fs h) [
  | inl q ↦ rw (← q) (elim (Bool-cases (e.id == i)) [
    | inl y ↦ rw y (rw y at v)
    | inr m ↦ rw (m, value_at-right new es i a) (rw m at v)
  ])
  | inr (gs, p, q) ↦ rw (← q) (elim (Bool-cases (e.id == i)) [
    | inl y ↦ rw y (rw y at v)
    | inr m ↦ rw m (splice_after-keeps es mark new gs i t p a (rw m at v))
  ])
]

pub splice_after-holds :
    (es : List Elem) (mark : ℕ) (new fs : List Elem) (i : ℕ) (t : Token)
    → splice_after es mark new ≡ some fs
    → Apart i es
    → value_at new i ≡ some t
    → value_at fs i ≡ some t
unfolding splice_after value_at
splice_after-holds [] mark new fs i t h a v = cc h
splice_after-holds (e ∷ es) mark new fs i t h (m, a) v =
    elim (splice_after_inv e es mark new fs h) [
      | inl q ↦ rw (← q, m) (value_at-left new es i t v)
      | inr (gs, p, q) ↦ rw (← q, m) (splice_after-holds es mark new gs i t p a v)
    ]

pub copies-Newer : (es : List Elem) (n : ℕ) → Newer (copies es n) n
unfolding copies
copies-Newer [] n = tt
copies-Newer (e ∷ es) n =
    (omega arith, Newer-weaken _ n (n + 1) (copies-Newer es (n + 1)) (omega arith))

-- The copy of an element has its value.
pub value_at-copies :
    (es : List Elem) (n i j : ℕ) (t : Token)
    → copy_of es n i ≡ some j
    → value_at es i ≡ some t
    → (value_at (copies es n) j ≡ some t) × (n ≤ j)
unfolding value_at copies copy_of
value_at-copies [] n i j t c h = cc h
value_at-copies (e ∷ es) n i j t c h = elim (Bool-cases (e.id == i)) [
  | inl y ↦
      let here : n ≡ j = ground arith in
      let same : (n == j) ≡ true = ground arith in (rw same (rw y at h), omega arith)
  | inr m ↦
      let (q, l) = value_at-copies es (n + 1) i j t (rw m at c) (rw m at h) in
      let other : (n == j) ≡ false = ground arith in (rw other q, omega arith)
]

copy_of-value_at :
    (es : List Elem) (n i j : ℕ) → copy_of es n i ≡ some j → (t : Token) × (value_at es i ≡ some t)
unfolding value_at copy_of
copy_of-value_at [] n i j c = cc c
copy_of-value_at (e ∷ es) n i j c = elim (Bool-cases (e.id == i)) [
  | inl y ↦ (e.value, rw y refl)
  | inr m ↦ let (t, q) = copy_of-value_at es (n + 1) i j (rw m at c) in (t, rw m q)
]

has-value_at :
    (es : List Elem) (a i : ℕ) (t : Token)
    → has a es ≡ false
    → value_at es i ≡ some t
    → (a == i) ≡ false
unfolding value_at
has-value_at [] a i t h v = cc v
has-value_at (e ∷ es) a i t h v = elim (Bool-cases (e.id == i)) [
  | inl y ↦ ground arith
  | inr m ↦ has-value_at es a i t (ground arith) (rw m at v)
]

Disjoint-Apart :
    (xs ys : List Elem) (i : ℕ) (t : Token) → Disjoint xs ys → value_at ys i ≡ some t → Apart i xs
Disjoint-Apart [] ys i t d v = tt
Disjoint-Apart (x ∷ xs) ys i t (h, d) v =
    (has-value_at ys x.id i t h v, Disjoint-Apart xs ys i t d v)

-- In a list of distinct elements, what is copied out of a range has its value there.
pub value_at-inside :
    (xs es ys : List Elem) (n i j : ℕ) (t : Token)
    → Distinct (xs ++ (es ++ ys))
    → copy_of es n i ≡ some j
    → value_at (xs ++ (es ++ ys)) i ≡ some t
    → value_at es i ≡ some t
value_at-inside xs es ys n i j t d c v =
    let (u, q) = copy_of-value_at es n i j c in
    let here = value_at-left es ys i u q in
    let (_, _, apart) = Distinct-append xs (es ++ ys) d in
    let same = value_at-right xs (es ++ ys) i (Disjoint-Apart xs (es ++ ys) i u apart here) in
    let k : u ≡ t = cc (here, same, v) in q ∙ ap (λ z. some z) k
