-- ===== src/Linked/Insert.antt =====
-- internal/list/list.go: `insert` and the operations that call it.
use roundtrip.Base.{
  ℕ, ◌+◌, ◌<◌, ◌≤◌, ◌≡◌, refl, ap, sym, ◌∙◌, List, [], ◌∷◌, ◌++◌, true, false, ◌==◌, Bool-cases,
  inl, inr, none, some, length-append, All, All-append, subst, arith,
}
use roundtrip.Linked.Pieces.{
  Pieces, link, link-other, link_outside, link-len, link-fresh, link-Pieces, IsList-Pieces,
  Pieces-IsList,
}
use roundtrip.Linked.Segments.{
  first, last, has, Distinct, Disjoint, IsList, has-append, Distinct-append, Disjoint-mem,
  Seg-frame,
}
use roundtrip.Linked.{Ptr, Heap, write, set_len, insert, ok}
use roundtrip.Token.{Token}
use roundtrip.TokenList.{Elem}

-- `g` is `h` but for the list `l`, its elements `es` and new elements.
pub record Spares (h g : Heap) (l : ℕ) (es : List Elem) : Type 0 where
  pub cells : (a : ℕ) → has a es ≡ false → a < h.fresh → g.cell a ≡ h.cell a
  pub headers : (k : ℕ) → (k == l) ≡ false → g.header k ≡ h.header k
  pub fresh : h.fresh ≤ g.fresh

pub below-has : (n : ℕ) (es : List Elem) (a : ℕ) → All (λ e. e.id < n) es → has a es ≡ true → a < n
below-has n [] a b m = cc
below-has n (e ∷ es) a (x, b) m = elim (Bool-cases (a == e.id)) [
  | inl y ↦ ground arith
  | inr z ↦ below-has n es a b (ground arith)
]

pub All-below : (n m : ℕ) (es : List Elem) → n ≤ m → All (λ e. e.id < n) es → All (λ e. e.id < m) es
All-below n m [] h b = tt
All-below n m (e ∷ es) h (x, b) = (omega arith, All-below n m es h b)

-- Another list is left as it is.
pub Spares-IsList :
    {h g : Heap} {l k : ℕ} {es fs : List Elem}
    → Spares h g l es
    → (k == l) ≡ false
    → Disjoint fs es
    → IsList h k fs
    → IsList g k fs
Spares-IsList {h} {g} {l} {k} {es} {fs} s d apart is = record {
  head = ap (λ x. x.head) (s.headers k d) ∙ is.head;
  tail = ap (λ x. x.tail) (s.headers k d) ∙ is.tail;
  len = ap (λ x. x.len) (s.headers k d) ∙ is.len;
  seg =
      Seg-frame k h g none fs none
        (λ a m. s.cells a (Disjoint-mem a fs es apart m) (below-has h.fresh fs a is.below m))
        is.seg;
  distinct = is.distinct;
  below = All-below h.fresh g.fresh fs s.fresh is.below;
}

-- the element that an insertion makes
abbrev pub new_elem : Heap → Token → Elem
new_elem h v = record { id = h.fresh; value = v }

not-has_fresh : (h : Heap) (es : List Elem) → All (λ e. e.id < h.fresh) es → has h.fresh es ≡ false
not-has_fresh h [] b = refl
not-has_fresh h (e ∷ es) (x, b) = ground (arith, not-has_fresh h es b)

-- The heap with the new element, before it is linked.
abbrev allocated : ℕ → Ptr → Ptr → Token → Heap → Heap
allocated l p n v h =
    record (write h.fresh (record { prev = p; next = n; list = some l; value = v }) h) {
      fresh = h.fresh + 1;
    }

allocated-other :
    (l : ℕ) (p n : Ptr) (v : Token) (h : Heap) (a : ℕ)
    → a < h.fresh
    → (allocated l p n v h).cell a ≡ h.cell a
allocated-other l p n v h a b = ground arith

allocated_self :
    (l : ℕ) (p n : Ptr) (v : Token) (h : Heap)
    → (allocated l p n v h).cell h.fresh ≡ record { prev = p; next = n; list = some l; value = v }
allocated_self l p n v h = ground arith

pub All-split :
    (n : ℕ) (xs ys : List Elem)
    → All (λ e. e.id < n) (xs ++ ys)
    → All (λ e. e.id < n) xs × All (λ e. e.id < n) ys
All-split n [] ys b = (tt, b)
All-split n (e ∷ xs) ys (x, b) = let (p, q) = All-split n xs ys b in ((x, p), q)

pub Distinct-insert :
    (xs ys : List Elem) (e : Elem)
    → Distinct (xs ++ ys)
    → has e.id xs ≡ false
    → has e.id ys ≡ false
    → Distinct (xs ++ e ∷ ys)
Distinct-insert [] ys e d nx ny = (ny, d)
Distinct-insert (x ∷ xs) ys e (h, d) nx ny = (
  ground (arith, has-append x.id xs ys, has-append x.id xs (e ∷ ys)),
  Distinct-insert xs ys e d (ground arith) ny,
)

pub has_front : (a : ℕ) (xs ys : List Elem) → has a (xs ++ ys) ≡ false → has a xs ≡ false
has_front a xs ys m = ground (arith, has-append a xs ys)

pub has_back : (a : ℕ) (xs ys : List Elem) → has a (xs ++ ys) ≡ false → has a ys ≡ false
has_back a xs ys m = ground (arith, has-append a xs ys)

-- The length is set.
pub Pieces-set_len :
    {h : Heap} (l n : ℕ) {xs ys : List Elem} {a b : Ptr}
    → Pieces h l xs a ys b
    → Pieces (set_len l n h) l xs a ys b
Pieces-set_len l n s = record {
  head = ground arith;
  tail = ground arith;
  front = s.front;
  back = s.back;
}

pub set_len-len : (l n : ℕ) (h : Heap) → ((set_len l n h).header l).len ≡ n
set_len-len l n h = ground arith

pub set_len_outside :
    (l n : ℕ) (h : Heap) (k : ℕ) → (k == l) ≡ false → (set_len l n h).header k ≡ h.header k
set_len_outside l n h k d = ground arith

-- The heap that `insert` leaves between `xs` and `ys`.
abbrev inserted_heap : ℕ → List Elem → List Elem → Token → Heap → Heap
inserted_heap l xs ys v h =
    link l xs ys (some h.fresh) (some h.fresh) (allocated l (last none xs) (first ys none) v h)

module _ {h : Heap} {l : ℕ} (xs ys : List Elem) (v : Token) (is : IsList h l (xs ++ ys)) where
  -- the heap at the end
  abbrev done_heap : Heap
  done_heap = set_len l (((inserted_heap l xs ys v h).header l).len + 1) (inserted_heap l xs ys v h)

  insert_eq : insert l (last none xs) (first ys none) v h ≡ ok h.fresh done_heap
  unfolding insert
  insert_eq = refl

  placed : Pieces (inserted_heap l xs ys v h) l xs (some h.fresh) ys (some h.fresh)
  placed =
      let (s, _) = IsList-Pieces xs [] ys is in
      let (dx, dy, d) = Distinct-append xs ys is.distinct in
      let (bx, by) = All-split h.fresh xs ys is.below in
      let g = allocated l (last none xs) (first ys none) v h in
      link-Pieces g l xs ys (first ys none) (last none xs) (some h.fresh) (some h.fresh)
        (record {
          head = s.head;
          tail = s.tail;
          front =
              Seg-frame l h g none xs (first ys none)
                (λ a m.
                  allocated-other l (last none xs) (first ys none) v h a
                    (below-has h.fresh xs a bx m))
                s.front;
          back =
              Seg-frame l h g (last none xs) ys none
                (λ a m.
                  allocated-other l (last none xs) (first ys none) v h a
                    (below-has h.fresh ys a by m))
                s.back;
        })
        dx dy d

  -- `insert` between `xs` and `ys` puts the new element there, and spares all other lists.
  pub insert-IsList :
      (g : Heap) × (insert l (last none xs) (first ys none) v h ≡ ok h.fresh g)
      × IsList g l (xs ++ new_elem h v ∷ ys)
      × Spares h g l (xs ++ ys)
      × (g.fresh ≡ h.fresh + 1)
  insert-IsList =
      let (dx, dy, d) = Distinct-append xs ys is.distinct in
      let (bx, by) = All-split h.fresh xs ys is.below in
      let nx = not-has_fresh h xs bx in
      let ny = not-has_fresh h ys by in
      let g = allocated l (last none xs) (first ys none) v h in
      let same_fresh = link-fresh l xs ys (some h.fresh) (some h.fresh) g in
      (
        done_heap,
        insert_eq,
        Pieces-IsList {h = done_heap} {l = l} xs (new_elem h v ∷ []) ys (Pieces-set_len l _ placed)
            (
              link-other l xs ys (some h.fresh) (some h.fresh) g h.fresh nx ny
                  ∙ allocated_self l (last none xs) (first ys none) v h,
              tt,
            )
            (set_len-len l _ (inserted_heap l xs ys v h)
              ∙ ap (λ n. n + 1) (link-len l xs ys (some h.fresh) (some h.fresh) g ∙ is.len)
              ∙ omega (arith, length-append xs ys, length-append xs (new_elem h v ∷ ys)))
            (Distinct-insert xs ys (new_elem h v) is.distinct nx ny)
            (subst (λ n. All (λ e. e.id < n) (xs ++ new_elem h v ∷ ys)) (sym same_fresh)
              (All-append (λ e. e.id < h.fresh + 1) xs (new_elem h v ∷ ys)
                (All-below h.fresh (h.fresh + 1) xs (omega arith) bx)
                (omega arith, All-below h.fresh (h.fresh + 1) ys (omega arith) by))),
        record {
          cells = λ a m b.
              link-other l xs ys (some h.fresh) (some h.fresh) g a (has_front a xs ys m)
                (has_back a xs ys m)
              ∙ allocated-other l (last none xs) (first ys none) v h a b;
          headers = λ k n.
              set_len_outside l _ (inserted_heap l xs ys v h) k n
              ∙ link_outside l xs ys (some h.fresh) (some h.fresh) g k n;
          fresh = omega (arith, same_fresh);
        },
        same_fresh,
      )
