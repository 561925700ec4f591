-- ===== src/Linked/Segments.antt =====
-- internal/list/list.go: chains of elements, and what the writes do to them.
use roundtrip.Base.{
  ℕ, ◌<◌, ◌≡◌, refl, ◌∙◌, inl, inr, List, [], ◌∷◌, ◌++◌, Bool, true, false, ◌||◌, none, some, ◌==◌,
  Bool-cases, length, All, subst, arith,
}
use roundtrip.Linked.{Ptr, Heap}
use roundtrip.TokenList.{Elem}

abbrev pub first : List Elem → Ptr → Ptr
first [] n = n
first (e ∷ es) n = some e.id

abbrev pub last : Ptr → List Elem → Ptr
last p [] = p
last p (e ∷ es) = last (some e.id) es

-- the elements, in order, of the list `l`, between `p` and `n`
abbrev pub Seg : Heap → ℕ → Ptr → List Elem → Ptr → Type 0
Seg h l p [] n = Unit
Seg h l p (e ∷ es) n =
    (h.cell e.id ≡ record { prev = p; next = first es n; list = some l; value = e.value })
    × Seg h l (some e.id) es n

abbrev pub has : ℕ → List Elem → Bool
has a [] = false
has a (e ∷ es) = a == e.id || has a es

abbrev pub Distinct : List Elem → Type 0
Distinct [] = Unit
Distinct (e ∷ es) = (has e.id es ≡ false) × Distinct es

abbrev pub Disjoint : List Elem → List Elem → Type 0
Disjoint [] ys = Unit
Disjoint (e ∷ xs) ys = (has e.id ys ≡ false) × Disjoint xs ys

-- The list `l` holds the elements `es`.
pub record IsList (h : Heap) (l : ℕ) (es : List Elem) : Type 0 where
  pub head : (h.header l).head ≡ first es none
  pub tail : (h.header l).tail ≡ last none es
  pub len : (h.header l).len ≡ length es
  pub seg : Seg h l none es none
  pub distinct : Distinct es
  pub below : All (λ e. e.id < h.fresh) es

pub first-append : (xs ys : List Elem) (n : Ptr) → first (xs ++ ys) n ≡ first xs (first ys n)
first-append [] ys n = refl
first-append (a ∷ xs) ys n = refl

pub last-append : (p : Ptr) (xs ys : List Elem) → last p (xs ++ ys) ≡ last (last p xs) ys
last-append p [] ys = refl
last-append p (a ∷ xs) ys = last-append (some a.id) xs ys

pub has-append : (a : ℕ) (xs ys : List Elem) → has a (xs ++ ys) ≡ (has a xs || has a ys)
has-append a [] ys = refl
has-append a (e ∷ xs) ys = ground (arith, has-append a xs ys)

pub Distinct-append :
    (xs ys : List Elem) → Distinct (xs ++ ys) → Distinct xs × Distinct ys × Disjoint xs ys
Distinct-append [] ys d = (tt, d, tt)
Distinct-append (e ∷ xs) ys (h, d) =
    let (x, y, z) = Distinct-append xs ys d in
    ((ground (arith, has-append e.id xs ys), x), y, (ground (arith, has-append e.id xs ys), z))

pub Distinct-join :
    (xs ys : List Elem) → Distinct xs → Distinct ys → Disjoint xs ys → Distinct (xs ++ ys)
Distinct-join [] ys x y z = y
Distinct-join (e ∷ xs) ys (h, x) y (k, z) =
    (ground (arith, has-append e.id xs ys), Distinct-join xs ys x y z)

pub Disjoint-mem : (a : ℕ) (xs ys : List Elem) → Disjoint xs ys → has a xs ≡ true → has a ys ≡ false
Disjoint-mem a [] ys d m = cc
Disjoint-mem a (e ∷ xs) ys (h, d) m = elim (Bool-cases (a == e.id)) [
  | inl y ↦ let q : a ≡ e.id = ground arith in rw q h
  | inr n ↦ Disjoint-mem a xs ys d (ground arith)
]

pub Disjoint-of :
    (xs ys : List Elem) → ((a : ℕ) → has a xs ≡ true → has a ys ≡ false) → Disjoint xs ys
Disjoint-of [] ys h = tt
Disjoint-of (e ∷ xs) ys h = (h e.id (ground arith), Disjoint-of xs ys λ a m. h a (ground arith))

pub apart : (a i : ℕ) (es : List Elem) → has i es ≡ false → has a es ≡ true → (i == a) ≡ false
apart a i es x m = elim (Bool-cases (i == a)) [
  | inl y ↦ let q : i ≡ a = ground arith in cc (subst (λ z. has z es ≡ false) q x, m)
  | inr n ↦ n
]

pub Disjoint-mem_back :
    (a : ℕ) (xs ys : List Elem) → Disjoint xs ys → has a ys ≡ true → has a xs ≡ false
Disjoint-mem_back a [] ys d m = refl
Disjoint-mem_back a (e ∷ xs) ys (x, d) m =
    ground (arith, Disjoint-mem_back a xs ys d m, apart a e.id ys x m)

module _ (l : ℕ) where
  pub Seg-append :
      (h : Heap) (p : Ptr) (xs ys : List Elem) (n : Ptr)
      → Seg h l p (xs ++ ys) n
      → Seg h l p xs (first ys n) × Seg h l (last p xs) ys n
  Seg-append h p [] ys n s = (tt, s)
  Seg-append h p (a ∷ xs) ys n (c, s) =
      let (x, y) = Seg-append h (some a.id) xs ys n s in ((rw (← first-append xs ys n) c, x), y)

  pub Seg-join :
      (h : Heap) (p : Ptr) (xs ys : List Elem) (n : Ptr)
      → Seg h l p xs (first ys n)
      → Seg h l (last p xs) ys n
      → Seg h l p (xs ++ ys) n
  Seg-join h p [] ys n s t = t
  Seg-join h p (a ∷ xs) ys n (c, s) t =
      (rw (first-append xs ys n) c, Seg-join h (some a.id) xs ys n s t)

  -- A chain survives a change that spares its elements.
  pub Seg-frame :
      (h g : Heap) (p : Ptr) (es : List Elem) (n : Ptr)
      → ((a : ℕ) → has a es ≡ true → g.cell a ≡ h.cell a)
      → Seg h l p es n
      → Seg g l p es n
  Seg-frame h g p [] n same s = tt
  Seg-frame h g p (e ∷ es) n same (c, s) = (
    same e.id (ground arith) ∙ c,
    Seg-frame h g (some e.id) es n (λ a m. same a (ground arith)) s,
  )
