-- ===== src/TokenList/Laws.antt =====
-- What the operations on the token list do to the source text and to the elements that are there.
use mathlib.Core.List.{append_assoc}
use roundtrip.Base.{
  ℕ, ◌+◌, ◌≡◌, refl, ap, sym, ◌∙◌, inl, inr, Text, List, [], ◌∷◌, ◌++◌, some, ◌==◌, Bool-cases,
  arith,
}
use roundtrip.Token.{Token, literals}
use roundtrip.TokenList.{
  Elem, TokenList, values, value_at, before, after, inserted, insert_before, insert_after,
}

-- an element of that name is in the list
abbrev pub Has : List Elem → ℕ → Type 0
Has es i = (t : Token) × (value_at es i ≡ some t)

abbrev pub elems_text : List Elem → Text
elems_text es = literals (values es)

pub elems_text-append : (es fs : List Elem) → elems_text (es ++ fs) ≡ elems_text es ++ elems_text fs
elems_text-append [] fs = refl
elems_text-append (e ∷ es) fs =
    ap (λ x. e.value.literal ++ x) (elems_text-append es fs)
    ∙ sym (append_assoc e.value.literal (elems_text es) (elems_text fs))

pub Has-append : (es fs : List Elem) (i : ℕ) → Has es i → Has (es ++ fs) i
unfolding value_at
Has-append [] fs i (t, h) = cc
Has-append (e ∷ es) fs i (t, h) = elim (Bool-cases (e.id == i)) [
  | inl y ↦ (e.value, rw y)
  | inr n ↦ let (t', h') = Has-append es fs i (t, rw n at h) in (t', rw n h')
]

pub Has-last : (es : List Elem) (e : Elem) → Has (es ++ e ∷ []) e.id
unfolding value_at
Has-last [] e = (e.value, ground arith)
Has-last (f ∷ es) e = elim (Bool-cases (f.id == e.id)) [
  | inl y ↦ (f.value, rw y)
  | inr n ↦ let (t', h') = Has-last es e in (t', rw n h')
]

-- An anchor was put into the list: no text is added, and nothing is lost.
pub record Anchored (es : List Elem) (i : ℕ) (fs : List Elem) : Type 0 where
  pub text : elems_text fs ≡ elems_text es
  pub has_new : Has fs i
  pub has_old : (j : ℕ) → Has es j → Has fs j

-- the same below an element
Anchored-cons :
    (e x : Elem) {es fs : List Elem}
    → x.value.literal ≡ []
    → Anchored es x.id fs
    → Anchored (e ∷ es) x.id (e ∷ fs)
unfolding value_at
Anchored-cons e x {es} {fs} n a = record {
  text = ap (λ s. e.value.literal ++ s) a.text;
  has_new = elim (Bool-cases (e.id == x.id)) [
    | inl y ↦ (e.value, rw y)
    | inr m ↦ let (t, h) = a.has_new in (t, rw m h)
  ];
  has_old = λ j (t, h). elim (Bool-cases (e.id == j)) [
    | inl y ↦ (e.value, rw y)
    | inr m ↦ let (t', h') = a.has_old j (t, rw m at h) in (t', rw m h')
  ];
}

Anchored-here : (x : Elem) (es : List Elem) → x.value.literal ≡ [] → Anchored es x.id (x ∷ es)
unfolding value_at
Anchored-here x es n = record {
  text = ap (λ s. s ++ elems_text es) n;
  has_new = (x.value, ground arith);
  has_old =
      λ j (t, h). elim (Bool-cases (x.id == j)) [ inl y ↦ (x.value, rw y) | inr m ↦ (t, rw m h) ];
}

module _ (mark : ℕ) (x : Elem) (empty : x.value.literal ≡ []) where
  before-Anchored :
      (es : List Elem)
      → Has es mark
      → (fs : List Elem) × (before es mark x ≡ some fs) × Anchored es x.id fs
  unfolding before value_at
  before-Anchored [] (t, h) = cc
  before-Anchored (e ∷ es) (t, h) = elim (Bool-cases (e.id == mark)) [
    | inl y ↦ (x ∷ e ∷ es, rw y, Anchored-here x (e ∷ es) empty)
    | inr n ↦
        let (fs, p, a) = before-Anchored es (t, rw n at h) in
        (e ∷ fs, rw (n, p), Anchored-cons e x empty a)
  ]

  after-Anchored :
      (es : List Elem)
      → Has es mark
      → (fs : List Elem) × (after es mark x ≡ some fs) × Anchored es x.id fs
  unfolding after value_at
  after-Anchored [] (t, h) = cc
  after-Anchored (e ∷ es) (t, h) = elim (Bool-cases (e.id == mark)) [
    | inl y ↦ (e ∷ x ∷ es, rw y, Anchored-cons e x empty (Anchored-here x es empty))
    | inr n ↦
        let (fs, p, a) = after-Anchored es (t, rw n at h) in
        (e ∷ fs, rw (n, p), Anchored-cons e x empty a)
  ]

module _ (l : TokenList) (mark : ℕ) (t : Token) (empty : t.literal ≡ [])
    (h : Has l.elems mark) where
  pub insert_before-Anchored :
      (m : TokenList) × (insert_before l mark t ≡ some (l.fresh, m))
      × Anchored l.elems l.fresh m.elems
  unfolding insert_before
  insert_before-Anchored =
      let (fs, p, a) = before-Anchored mark (record { id = l.fresh; value = t }) empty l.elems h in
      (record { elems = fs; fresh = l.fresh + 1 }, rw (p, inserted), a)

  pub insert_after-Anchored :
      (m : TokenList) × (insert_after l mark t ≡ some (l.fresh, m))
      × Anchored l.elems l.fresh m.elems
  unfolding insert_after
  insert_after-Anchored =
      let (fs, p, a) = after-Anchored mark (record { id = l.fresh; value = t }) empty l.elems h in
      (record { elems = fs; fresh = l.fresh + 1 }, rw (p, inserted), a)
