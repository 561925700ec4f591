-- ===== src/Linked/Pieces.antt =====
-- internal/list/list.go: a list that is cut into a front and a back, and put together again.
use roundtrip.Base.{
  ℕ, ◌<◌, ◌≡◌, refl, ap, sym, ◌∙◌, List, ◌++◌, true, false, ◌==◌, none, some, length, All, subst,
}
use roundtrip.Linked.Links.{
  link_next-other, link_prev-other, last-ne, first-ne, link_next-Seg, link_prev-Seg, link_next-head,
  link_next-tail, link_next-len, link_next_outside, link_next-fresh, link_prev-head, link_prev-tail,
  link_prev-len, link_prev_outside, link_prev-fresh,
}
use roundtrip.Linked.Segments.{
  first, last, Seg, has, Distinct, Disjoint, IsList, first-append, last-append, Disjoint-mem,
  Disjoint-mem_back, Seg-append, Seg-join, Seg-frame,
}
use roundtrip.Linked.{Ptr, ptr_eq, Heap, link_next, link_prev}
use roundtrip.TokenList.{Elem}

-- The front `xs` leads to `a`, and the back `ys` comes from `b`.
pub record Pieces (h : Heap) (l : ℕ) (xs : List Elem) (a : Ptr) (ys : List Elem) (b : Ptr)
    : Type 0 where
  pub head : (h.header l).head ≡ first xs a
  pub tail : (h.header l).tail ≡ last b ys
  pub front : Seg h l none xs a
  pub back : Seg h l b ys none

-- both writes of a link
abbrev pub link : ℕ → List Elem → List Elem → Ptr → Ptr → Heap → Heap
link l xs ys p q h = link_prev l (first ys none) q (link_next l (last none xs) p h)

not_some_of : (a : ℕ) (xs : List Elem) → has a xs ≡ false → ptr_eq (last none xs) (some a) ≡ false
not_some_of a xs n = last-ne none xs a refl n

not_first_of : (a : ℕ) (ys : List Elem) → has a ys ≡ false → ptr_eq (first ys none) (some a) ≡ false
not_first_of a ys n = first-ne ys none a refl n

-- A link changes the elements of the front and the back only.
pub link-other :
    (l : ℕ) (xs ys : List Elem) (p q : Ptr) (h : Heap) (a : ℕ)
    → has a xs ≡ false
    → has a ys ≡ false
    → (link l xs ys p q h).cell a ≡ h.cell a
link-other l xs ys p q h a m n =
    link_prev-other l (first ys none) q (link_next l (last none xs) p h) a (not_first_of a ys n)
    ∙ link_next-other l (last none xs) p h a (not_some_of a xs m)

pub link_outside :
    (l : ℕ) (xs ys : List Elem) (p q : Ptr) (h : Heap) (k : ℕ)
    → (k == l) ≡ false
    → (link l xs ys p q h).header k ≡ h.header k
link_outside l xs ys p q h k d =
    link_prev_outside l (link_next l (last none xs) p h) (first ys none) q k d
    ∙ link_next_outside l h (last none xs) p k d

pub link-len :
    (l : ℕ) (xs ys : List Elem) (p q : Ptr) (h : Heap)
    → ((link l xs ys p q h).header l).len ≡ (h.header l).len
link-len l xs ys p q h =
    link_prev-len l (link_next l (last none xs) p h) (first ys none) q
    ∙ link_next-len l h (last none xs) p

pub link-fresh :
    (l : ℕ) (xs ys : List Elem) (p q : Ptr) (h : Heap) → (link l xs ys p q h).fresh ≡ h.fresh
link-fresh l xs ys p q h =
    link_prev-fresh l (link_next l (last none xs) p h) (first ys none) q
    ∙ link_next-fresh l h (last none xs) p

pub link-Pieces :
    (h : Heap) (l : ℕ) (xs ys : List Elem) (a b p q : Ptr)
    → Pieces h l xs a ys b
    → Distinct xs
    → Distinct ys
    → Disjoint xs ys
    → Pieces (link l xs ys p q h) l xs p ys q
link-Pieces h l xs ys a b p q s dx dy d =
    let g = link_next l (last none xs) p h in
    record {
      head = link_prev-head l g (first ys none) q ∙ link_next-head l h xs a p s.head;
      tail = link_prev-tail l g ys b q (link_next-tail l h (last none xs) p ∙ s.tail);
      front =
          Seg-frame l g (link l xs ys p q h) none xs p
            (λ c m.
              link_prev-other l (first ys none) q g c
                (not_first_of c ys (Disjoint-mem c xs ys d m)))
            (link_next-Seg l l h none xs a p dx s.front);
      back = link_prev-Seg l l g b ys none q dy (
          Seg-frame l h g b ys none
            (λ c m.
              link_next-other l (last none xs) p h c
                (not_some_of c xs (Disjoint-mem_back c xs ys d m)))
            s.back);
    }

pub IsList-Pieces :
    {h : Heap} {l : ℕ} (xs ms ys : List Elem)
    → IsList h l (xs ++ (ms ++ ys))
    → Pieces h l xs (first ms (first ys none)) ys (last (last none xs) ms)
      × Seg h l (last none xs) ms (first ys none)
IsList-Pieces {h} {l} xs ms ys s =
    let (f, r) = Seg-append l h none xs (ms ++ ys) none s.seg in
    let (m, b) = Seg-append l h (last none xs) ms ys none r in
    (
      record {
        head = s.head ∙ first-append xs (ms ++ ys) none ∙ ap (first xs) (first-append ms ys none);
        tail = s.tail ∙ last-append none xs (ms ++ ys) ∙ last-append (last none xs) ms ys;
        front = subst (λ n. Seg h l none xs n) (first-append ms ys none) f;
        back = b;
      },
      m,
    )

pub Pieces-IsList :
    {h : Heap} {l : ℕ} (xs ms ys : List Elem)
    → Pieces h l xs (first ms (first ys none)) ys (last (last none xs) ms)
    → Seg h l (last none xs) ms (first ys none)
    → (h.header l).len ≡ length (xs ++ (ms ++ ys))
    → Distinct (xs ++ (ms ++ ys))
    → All (λ e. e.id < h.fresh) (xs ++ (ms ++ ys))
    → IsList h l (xs ++ (ms ++ ys))
Pieces-IsList {h} {l} xs ms ys s m len d below = record {
  head = s.head ∙ sym (first-append xs (ms ++ ys) none ∙ ap (first xs) (first-append ms ys none));
  tail = s.tail ∙ sym (last-append none xs (ms ++ ys) ∙ last-append (last none xs) ms ys);
  len = len;
  seg =
      Seg-join l h none xs (ms ++ ys) none
        (subst (λ n. Seg h l none xs n) (sym (first-append ms ys none)) s.front)
        (Seg-join l h (last none xs) ms ys none m s.back);
  distinct = d;
  below = below;
}

-- A cut list survives a change that spares its elements and its header.
pub Pieces-frame :
    {h : Heap} (g : Heap) {l : ℕ} {xs ys : List Elem} {a b : Ptr}
    → g.header l ≡ h.header l
    → ((c : ℕ) → has c xs ≡ true → g.cell c ≡ h.cell c)
    → ((c : ℕ) → has c ys ≡ true → g.cell c ≡ h.cell c)
    → Pieces h l xs a ys b
    → Pieces g l xs a ys b
Pieces-frame {h} g {l} {xs} {ys} {a} {b} e f k s = record {
  head = ap (λ x. x.head) e ∙ s.head;
  tail = ap (λ x. x.tail) e ∙ s.tail;
  front = Seg-frame l h g none xs a f s.front;
  back = Seg-frame l h g b ys none k s.back;
}
