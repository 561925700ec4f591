-- ===== src/Linked/Splice.antt =====
-- internal/list/list.go: `splice`, which moves the elements of one list into another.
use roundtrip.Base.{
  ℕ, ◌+◌, ◌<◌, ◌≡◌, refl, ap, sym, ◌∙◌, List, [], ◌∷◌, ◌++◌, false, ◌==◌, none, some, length,
  length-append, All, All-append, subst, arith,
}
use roundtrip.Linked.Insert.{All-split}
use roundtrip.Linked.Links.{
  link_next-other, link_prev-other, last-ne, first-ne, link_next-Seg, link_prev-Seg, last_some,
  link_next_outside, link_prev_outside, link_next-fresh, link_prev-fresh,
}
use roundtrip.Linked.Pieces.{
  Pieces, link, link-other, link-len, link-fresh, link-Pieces, IsList-Pieces, Pieces-IsList,
  Pieces-frame,
}
use roundtrip.Linked.Segments.{
  first, last, Seg, has, Disjoint, IsList, has-append, Distinct-append, Distinct-join, Disjoint-of,
  Disjoint-mem, Disjoint-mem_back, Seg-frame,
}
use roundtrip.Linked.{
  Ptr, ptr_eq, Heap, ok, relabel, splice, splice_all, deref, set_prev, set_next, set_len, link_next,
  link_prev, empty_header, set_header,
}
use roundtrip.TokenList.{Elem}
use roundtrip.Linked.Relabel.{Beyond, Relabelled, relabel-Relabelled}

Beyond-first : (ys es : List Elem) → Disjoint es ys → Beyond (first ys none) es
Beyond-first ys [] d = tt
Beyond-first ys (e ∷ es) (x, d) = (not_first ys e.id x, Beyond-first ys es d)
  where
    not_first :
        (vs : List Elem) (i : ℕ) → has i vs ≡ false → ptr_eq (some i) (first vs none) ≡ false
    not_first [] i x = refl
    not_first (v ∷ vs) i x = ground arith

-- The ends of the spliced elements are linked to their new neighbours.
abbrev ends : ℕ → List Elem → Ptr → Ptr → Heap → Heap
ends src ns prev next h = link_next src (last none ns) next (link_prev src (first ns none) prev h)

deref_head :
    (src : ℕ) (e : Elem) (es : List Elem) (q : Ptr) (h : Heap)
    → deref (first (e ∷ es) none) (λ i. set_prev i q) h
      ≡ ok tt (link_prev src (first (e ∷ es) none) q h)
unfolding deref link_prev
deref_head src e es q h = refl

deref_tail :
    (src : ℕ) (e : Elem) (es : List Elem) (n : Ptr) (h : Heap)
    → deref (last none (e ∷ es)) (λ i. set_next i n) h
      ≡ ok tt (link_next src (last none (e ∷ es)) n h)
unfolding deref link_next
deref_tail src e es n h = let (j, y) = last_some e.id es in rw y refl

ends-other :
    (src : ℕ) (ns : List Elem) (prev next : Ptr) (h : Heap) (a : ℕ)
    → has a ns ≡ false
    → (ends src ns prev next h).cell a ≡ h.cell a
ends-other src ns prev next h a m =
    link_next-other src (last none ns) next (link_prev src (first ns none) prev h) a
      (last-ne none ns a refl m)
    ∙ link_prev-other src (first ns none) prev h a (first-ne ns none a refl m)

ends_outside :
    (src : ℕ) (ns : List Elem) (prev next : Ptr) (h : Heap) (k : ℕ)
    → (k == src) ≡ false
    → (ends src ns prev next h).header k ≡ h.header k
ends_outside src ns prev next h k d =
    link_next_outside src (link_prev src (first ns none) prev h) (last none ns) next k d
    ∙ link_prev_outside src h (first ns none) prev k d

ends-fresh :
    (src : ℕ) (ns : List Elem) (prev next : Ptr) (h : Heap)
    → (ends src ns prev next h).fresh ≡ h.fresh
ends-fresh src ns prev next h =
    link_next-fresh src (link_prev src (first ns none) prev h) (last none ns) next
    ∙ link_prev-fresh src h (first ns none) prev

-- what is left to do behind the loop
abbrev finish : ℕ → ℕ → ℕ → Heap → Heap
finish l src n g = set_header src empty_header (set_len l ((g.header l).len + n) g)

splice_all_run :
    (l src : ℕ) (prev next : Ptr) (e : Elem) (es : List Elem) (h g : Heap)
    → (h.header src).head ≡ first (e ∷ es) none
    → (h.header src).tail ≡ last none (e ∷ es)
    → relabel ((h.header src).len + 1) l (first (e ∷ es) none) next (
        ends src
          (e ∷ es)
          prev
          next
          (link_prev l next (last none (e ∷ es)) (link_next l prev (first (e ∷ es) none) h)))
      ≡ ok tt g
    → splice_all l prev next src h ≡ ok tt (finish l src (h.header src).len g)
unfolding splice_all
splice_all_run l src prev next e es h g hd tl run =
    let linked = link_prev l next (last none (e ∷ es)) (link_next l prev (first (e ∷ es) none) h) in
    rw
      (
        hd,
        tl,
        deref_head src e es prev linked,
        deref_tail src e es next (link_prev src (first (e ∷ es) none) prev linked),
        run,
      )
      refl

module _ {h : Heap} {l src : ℕ} (xs ys : List Elem) (e : Elem) (es : List Elem)
    (is : IsList h l (xs ++ ys)) (from : IsList h src (e ∷ es)) (ne : (l == src) ≡ false)
    (dx : Disjoint (e ∷ es) xs) (dy : Disjoint (e ∷ es) ys) where
  abbrev joined : Heap
  joined =
      ends src (e ∷ es) (last none xs) (first ys none)
        (link l xs ys (first (e ∷ es) none) (last none (e ∷ es)) h)

  joined-Seg : Seg joined src (last none xs) (e ∷ es) (first ys none)
  joined-Seg =
      let g = link l xs ys (first (e ∷ es) none) (last none (e ∷ es)) h in
      link_next-Seg src src (link_prev src (first (e ∷ es) none) (last none xs) g) (last none xs)
        (e ∷ es) none (first ys none) from.distinct
        (link_prev-Seg src src g none (e ∷ es) none (last none xs) from.distinct (
          Seg-frame src h g none (e ∷ es) none
            (λ a m.
              link-other l xs ys (first (e ∷ es) none) (last none (e ∷ es)) h a
                (Disjoint-mem a (e ∷ es) xs dx m) (Disjoint-mem a (e ∷ es) ys dy m))
            from.seg))

  splice_eq :
      (g : Heap)
      → relabel ((h.header src).len + 1) l (first (e ∷ es) none) (first ys none) joined ≡ ok tt g
      → splice l (last none xs) (first ys none) src h ≡ ok tt (finish l src (h.header src).len g)
  unfolding splice
  splice_eq g run =
      let t : (src == l) ≡ false = ground arith in
      let z : ((h.header src).len == 0) ≡ false = ground (arith, from.len) in
      rw (t, z)
        (splice_all_run l src (last none xs) (first ys none) e es h g from.head from.tail run)

  module _ (g : Heap) (r : Relabelled joined g l (last none xs) (e ∷ es) (first ys none)) where
    lk : Heap
    lk = link l xs ys (first (e ∷ es) none) (last none (e ∷ es)) h

    header_kept : g.header l ≡ lk.header l
    unfolding lk
    header_kept = r.headers l ∙ ends_outside src (e ∷ es) (last none xs) (first ys none) lk l ne

    cells_kept : (a : ℕ) → has a (e ∷ es) ≡ false → g.cell a ≡ lk.cell a
    unfolding lk
    cells_kept a m = r.cells a m ∙ ends-other src (e ∷ es) (last none xs) (first ys none) lk a m

    fresh_kept : g.fresh ≡ h.fresh
    unfolding lk
    fresh_kept =
        r.fresh
        ∙ ends-fresh src (e ∷ es) (last none xs) (first ys none) lk
        ∙ link-fresh l xs ys (first (e ∷ es) none) (last none (e ∷ es)) h

    both_kept : Pieces g l xs (first (e ∷ es) none) ys (last none (e ∷ es))
    unfolding lk
    both_kept =
        let (s, _) = IsList-Pieces xs [] ys is in
        let (d1, d2, d3) = Distinct-append xs ys is.distinct in
        Pieces-frame {h = lk} g header_kept
          (λ c m. cells_kept c (Disjoint-mem_back c (e ∷ es) xs dx m))
          (λ c m. cells_kept c (Disjoint-mem_back c (e ∷ es) ys dy m))
          (link-Pieces h l xs ys (first ys none) (last none xs) (first (e ∷ es) none)
            (last none (e ∷ es)) s d1 d2 d3)

    finish_header :
        (finish l src (h.header src).len g).header l
        ≡ record (g.header l) { len = (g.header l).len + (h.header src).len }
    finish_header = rw ne (ground arith)

    finish-Pieces :
        Pieces
          (finish l src (h.header src).len g)
          l
          xs
          (first (e ∷ es) none)
          ys
          (last none (e ∷ es))
    finish-Pieces = record {
      head = ap (λ x. x.head) finish_header ∙ both_kept.head;
      tail = ap (λ x. x.tail) finish_header ∙ both_kept.tail;
      front = both_kept.front;
      back = both_kept.back;
    }

    len_kept : (g.header l).len ≡ length (xs ++ ys)
    unfolding lk
    len_kept =
        ap (λ x. x.len) header_kept
        ∙ link-len l xs ys (first (e ∷ es) none) (last none (e ∷ es)) h
        ∙ is.len

    finish-IsList : IsList (finish l src (h.header src).len g) l (xs ++ ((e ∷ es) ++ ys))
    finish-IsList =
        let (d1, d2, d3) = Distinct-append xs ys is.distinct in
        let (b1, b2) = All-split h.fresh xs ys is.below in
        Pieces-IsList {h = finish l src (h.header src).len g} {l = l} xs (e ∷ es) ys finish-Pieces
          r.seg
          (ap (λ x. x.len) finish_header
            ∙ omega (
              arith,
              len_kept,
              from.len,
              length-append xs ys,
              length-append xs ((e ∷ es) ++ ys),
              length-append (e ∷ es) ys,
            ))
          (Distinct-join xs ((e ∷ es) ++ ys) d1 (Distinct-join (e ∷ es) ys from.distinct d2 dy) (
            Disjoint-of xs ((e ∷ es) ++ ys)
              λ a m. neither a (Disjoint-mem_back a (e ∷ es) xs dx m) (Disjoint-mem a xs ys d3 m)))
          (subst (λ n. All (λ x. x.id < n) (xs ++ ((e ∷ es) ++ ys))) (sym fresh_kept)
            (All-append _ xs ((e ∷ es) ++ ys) b1 (All-append _ (e ∷ es) ys from.below b2)))
      where
        neither :
            (a : ℕ) → has a (e ∷ es) ≡ false → has a ys ≡ false → has a ((e ∷ es) ++ ys) ≡ false
        neither a m n = ground (arith, has-append a (e ∷ es) ys)

    finish_source : IsList (finish l src (h.header src).len g) src []
    finish_source = record {
      head = ground arith;
      tail = ground arith;
      len = ground arith;
      seg = tt;
      distinct = tt;
      below = tt;
    }

  -- `splice` of a source list that is not empty into a different list that holds `xs` and `ys`, none of
  -- whose elements is in the source, ends without a panic; the list then holds `xs`, the elements of
  -- the source and `ys`, and the source is empty.
  pub splice-IsList :
      (g : Heap) × (splice l (last none xs) (first ys none) src h ≡ ok tt g)
      × IsList g l (xs ++ ((e ∷ es) ++ ys))
      × IsList g src []
  splice-IsList =
      let (g, run, r) =
        relabel-Relabelled ((h.header src).len + 1) l src joined (last none xs) (e ∷ es)
          (first ys none) joined-Seg from.distinct (Beyond-first ys (e ∷ es) dy)
          (omega (arith, from.len)) in
      (finish l src (h.header src).len g, splice_eq g run, finish-IsList g r, finish_source g r)
