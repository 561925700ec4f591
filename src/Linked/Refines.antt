-- ===== src/Linked/Refines.antt =====
-- internal/list/list.go: the insertions over the heap do what those on the sequence of elements do.
use roundtrip.Base.{
  ℕ, ◌+◌, ◌≡◌, refl, ap, sym, ◌∙◌, List, [], ◌∷◌, ◌++◌, Option, none, some, append-nil,
  append_assoc, subst, arith,
}
use roundtrip.Linked.Insert.{Spares, new_elem, insert-IsList}
use roundtrip.Linked.Pieces.{IsList-Pieces}
use roundtrip.Linked.Segments.{first, last, IsList, last-append}
use roundtrip.Linked.{Heap, Run, ok, insert, check, push_back, insert_before, insert_after}
use roundtrip.Token.{Token}
use roundtrip.TokenList.Splits.{InsertSplit, insert_before-InsertSplit, insert_after-InsertSplit}
use roundtrip.TokenList.{
  Elem, TokenList, insert_before as insert_before_in, insert_after as insert_after_in,
  push_back as push_back_in,
}

-- the sequence that the list `l` stands for
abbrev pub view : Heap → List Elem → TokenList
view h es = record { elems = es; fresh = h.fresh }

pub cell_of :
    {h : Heap} {l : ℕ} (xs : List Elem) (m : Elem) (ys : List Elem)
    → IsList h l (xs ++ m ∷ ys)
    → h.cell m.id
      ≡ record { prev = last none xs; next = first ys none; list = some l; value = m.value }
cell_of xs m ys is = (IsList-Pieces xs (m ∷ []) ys is).1.0

pub check-ok :
    {h : Heap} {l : ℕ} (xs : List Elem) (m : Elem) (ys : List Elem)
    → IsList h l (xs ++ m ∷ ys)
    → check l m.id h ≡ ok tt h
unfolding check
check-ok {h} {l} xs m ys is =
    let e : (h.cell m.id).list ≡ some l = ap (λ c. c.list) (cell_of xs m ys is) in
    rw e (ground arith)

-- what an insertion over the heap returns, where the one in the sequence returns `i` and `ts`
pub data Inserted (h : Heap) (l : ℕ) (es : List Elem) (i : ℕ) (ts : TokenList)
    : Run ℕ → Type 0 where
  inserted_at :
      {g : Heap}
      → IsList g l ts.elems
      → g.fresh ≡ ts.fresh
      → Spares h g l es
      → Inserted h l es i ts (ok i g)

split_insertion :
    {h : Heap} {l : ℕ} (xs ys : List Elem) (v : Token)
    → IsList h l (xs ++ ys)
    → Inserted h l
        (xs ++ ys)
        h.fresh
        (record { elems = xs ++ new_elem h v ∷ ys; fresh = h.fresh + 1 })
        (insert l (last none xs) (first ys none) v h)
split_insertion xs ys v is =
    let (g, e, k, s, f) = insert-IsList xs ys v is in rw e (inserted_at k f s)

-- the same, where the split is known by `InsertSplit`
refined :
    {h : Heap} {l : ℕ} {es xs ys : List Elem} {v : Token} {i : ℕ} {ts : TokenList}
    → IsList h l es
    → InsertSplit (view h es) v i ts xs ys
    → Inserted h l es i ts (insert l (last none xs) (first ys none) v h)
refined {h} {l} {es} {xs} {ys} {v} {i} {ts} is s =
    rw (s.elems, s.result, s.name) (split_insertion xs ys v (subst (IsList h l) s.elems is))

insert_before-Inserted :
    {h : Heap} {l : ℕ} {es : List Elem} (mark : ℕ) (v : Token) (i : ℕ) (ts : TokenList)
    → IsList h l es
    → insert_before_in (view h es) mark v ≡ some (i, ts)
    → Inserted h l es i ts (insert_before l mark v h)
unfolding insert_before
insert_before-Inserted {h} {l} {es} mark v i ts is e =
    let (xs, m, ys, at, s) = insert_before-InsertSplit (view h es) mark v i ts e in
    let here = subst (IsList h l) s.elems is in
    let c = cell_of xs m ys here in
    subst (λ k. Inserted h l es i ts (insert_before l k v h)) at
      (rw (check-ok xs m ys here, ap (λ x. x.prev) c) (refined is s))

insert_after-Inserted :
    {h : Heap} {l : ℕ} {es : List Elem} (mark : ℕ) (v : Token) (i : ℕ) (ts : TokenList)
    → IsList h l es
    → insert_after_in (view h es) mark v ≡ some (i, ts)
    → Inserted h l es i ts (insert_after l mark v h)
unfolding insert_after
insert_after-Inserted {h} {l} {es} mark v i ts is e =
    let (xs, m, ys, at, s) = insert_after-InsertSplit (view h es) mark v i ts e in
    let here = subst (IsList h l) (s.elems ∙ append_assoc xs (m ∷ []) ys) is in
    let c = cell_of xs m ys here in
    subst (λ k. Inserted h l es i ts (insert_after l k v h)) at
      (rw (check-ok xs m ys here, ap (λ x. x.next) c)
        (rw (last-append none xs (m ∷ [])) at (refined is s)))

push_back-Inserted :
    {h : Heap} {l : ℕ} {es : List Elem} (v : Token)
    → IsList h l es
    → Inserted h l es
        (push_back_in (view h es) v).0
        (push_back_in (view h es) v).1
        (push_back l v h)
unfolding push_back
push_back-Inserted {h} {l} {es} v is = rw is.tail (
    refined {xs = es} {ys = []} is
      (record { elems = sym (append-nil es); result = refl; name = refl }))

pub data Insertion : Type 0 where
  at_back : Token → Insertion
  before_mark after_mark : ℕ → Token → Insertion

abbrev pub in_sequence : TokenList → Insertion → Option (ℕ × TokenList)
in_sequence ts (at_back v) = some (push_back_in ts v)
in_sequence ts (before_mark mark v) = insert_before_in ts mark v
in_sequence ts (after_mark mark v) = insert_after_in ts mark v

abbrev pub in_heap : ℕ → Insertion → Heap → Run ℕ
in_heap l (at_back v) = push_back l v
in_heap l (before_mark mark v) = insert_before l mark v
in_heap l (after_mark mark v) = insert_after l mark v

-- Where the insertion in the sequence `es` returns an element and a sequence, `PushBack`,
-- `InsertBefore` and `InsertAfter` of a list that holds `es` return the same element without a panic,
-- leave a list that holds that sequence, and spare every element of other lists.
pub in_heap-Inserted :
    {h : Heap} {l : ℕ} {es : List Elem} (op : Insertion) (i : ℕ) (ts : TokenList)
    → IsList h l es
    → in_sequence (view h es) op ≡ some (i, ts)
    → Inserted h l es i ts (in_heap l op h)
in_heap-Inserted {h} {l} {es} (at_back v) i ts is e =
    subst (λ (x : ℕ × TokenList). Inserted h l es x.0 x.1 (push_back l v h)) (cc e)
      (push_back-Inserted v is)
in_heap-Inserted (before_mark mark v) i ts is e = insert_before-Inserted mark v i ts is e
in_heap-Inserted (after_mark mark v) i ts is e = insert_after-Inserted mark v i ts is e
