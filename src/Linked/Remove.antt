-- ===== src/Linked/Remove.antt =====
-- internal/list/list.go: `Remove`.
use roundtrip.Base.{
  ℕ, ◌-◌, ◌<◌, ◌≡◌, refl, ap, sym, ◌∙◌, List, [], ◌∷◌, ◌++◌, true, false, ◌==◌, none, some,
  length-append, All, All-append, subst, arith,
}
use roundtrip.Linked.Insert.{
  Spares, All-split, has_front, has_back, Pieces-set_len, set_len-len, set_len_outside,
}
use roundtrip.Linked.Pieces.{
  Pieces, link, link-other, link_outside, link-len, link-fresh, link-Pieces, IsList-Pieces,
  Pieces-IsList, Pieces-frame,
}
use roundtrip.Linked.Refines.{cell_of, check-ok}
use roundtrip.Linked.Segments.{
  first, last, has, Distinct, IsList, has-append, Distinct-append, apart,
}
use roundtrip.Linked.{Heap, ok, remove, forget, set_len}
use roundtrip.TokenList.{Elem}

-- An element that was removed belongs to no list.
pub record IsFree (h : Heap) (i : ℕ) : Type 0 where
  pub prev : (h.cell i).prev ≡ none
  pub next : (h.cell i).next ≡ none
  pub list : (h.cell i).list ≡ none

Distinct-drop :
    (xs ys : List Elem) (m : Elem)
    → Distinct (xs ++ m ∷ ys)
    → Distinct (xs ++ ys) × (has m.id xs ≡ false) × (has m.id ys ≡ false)
Distinct-drop [] ys m (h, d) = (d, refl, h)
Distinct-drop (x ∷ xs) ys m (h, d) =
    let (e, a, b) = Distinct-drop xs ys m d in
    (
      (ground (arith, has-append x.id xs (m ∷ ys), has-append x.id xs ys), e),
      ground (arith, has-append x.id xs (m ∷ ys)),
      b,
    )

forget-other : (i : ℕ) (h : Heap) (a : ℕ) → (a == i) ≡ false → (forget i h).cell a ≡ h.cell a
forget-other i h a d = ground arith

forget-IsFree : (i : ℕ) (h : Heap) → IsFree (forget i h) i
forget-IsFree i h = record { prev = ground arith; next = ground arith; list = ground arith }

apart_sym : (a i : ℕ) (es : List Elem) → has i es ≡ false → has a es ≡ true → (a == i) ≡ false
apart_sym a i es x m = let n = apart a i es x m in ground arith

tail_of : (a : ℕ) (ys : List Elem) (m : Elem) → has a (m ∷ ys) ≡ false → has a ys ≡ false
tail_of a ys m h = ground arith

not_it : (a : ℕ) (xs ys : List Elem) (m : Elem) → has a (xs ++ m ∷ ys) ≡ false → (a == m.id) ≡ false
not_it a xs ys m h = ground (arith, has-append a xs (m ∷ ys))

module _ {h : Heap} {l : ℕ} (xs ys : List Elem) (m : Elem) (is : IsList h l (xs ++ m ∷ ys)) where
  abbrev unlinked : Heap
  unlinked = link l xs ys (first ys none) (last none xs) h

  abbrev left_heap : Heap
  left_heap = set_len l (((forget m.id unlinked).header l).len - 1) (forget m.id unlinked)

  remove_eq : remove l m.id h ≡ ok m.value left_heap
  unfolding remove
  remove_eq = rw (check-ok xs m ys is, cell_of xs m ys is) refl

  both_linked : Pieces unlinked l xs (first ys none) ys (last none xs)
  both_linked =
      let (s, _) = IsList-Pieces xs (m ∷ []) ys is in
      let (d, _, _) = Distinct-drop xs ys m is.distinct in
      let (dx, dy, dj) = Distinct-append xs ys d in
      link-Pieces h l xs ys (some m.id) (some m.id) (first ys none) (last none xs) s dx dy dj

  -- `Remove` of an element `m` of a list that holds `xs`, `m` and `ys` does not panic, returns the value
  -- of `m`, leaves a list that holds `xs` and `ys` and an element without links and without a list, and
  -- spares every other list and its elements.
  pub remove-IsList :
      (g : Heap) × (remove l m.id h ≡ ok m.value g)
      × IsList g l (xs ++ ys)
      × IsFree g m.id
      × Spares h g l (xs ++ m ∷ ys)
  remove-IsList =
      let (d, nx, ny) = Distinct-drop xs ys m is.distinct in
      let (bx, (bm, by)) = All-split h.fresh xs (m ∷ ys) is.below in
      let same_fresh = link-fresh l xs ys (first ys none) (last none xs) h in
      let free = forget-IsFree m.id unlinked in
      let spared = λ (a : ℕ) (n : (a == m.id) ≡ false). forget-other m.id unlinked a n in
      (
        left_heap,
        remove_eq,
        Pieces-IsList {h = left_heap} {l = l} xs [] ys
            (Pieces-set_len l _ (
              Pieces-frame (forget m.id unlinked) refl (λ c x. spared c (apart_sym c m.id xs nx x))
                (λ c x. spared c (apart_sym c m.id ys ny x)) both_linked))
            tt
            (set_len-len l _ (forget m.id unlinked)
              ∙ ap (λ n. n - 1) (link-len l xs ys (first ys none) (last none xs) h ∙ is.len)
              ∙ omega (arith, length-append xs ys, length-append xs (m ∷ ys)))
            d
            (subst (λ n. All (λ e. e.id < n) (xs ++ ys)) (sym same_fresh)
              (All-append _ xs ys bx by)),
        record { prev = free.prev; next = free.next; list = free.list },
        record {
          cells = λ a n b.
              spared a (not_it a xs ys m n)
              ∙ link-other l xs ys (first ys none) (last none xs) h a (has_front a xs (m ∷ ys) n)
                  (tail_of a ys m (has_back a xs (m ∷ ys) n));
          headers = λ k n.
              set_len_outside l _ (forget m.id unlinked) k n
              ∙ link_outside l xs ys (first ys none) (last none xs) h k n;
          fresh = omega (arith, same_fresh);
        },
      )
