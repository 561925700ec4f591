-- ===== src/Linked/Links.antt =====
-- internal/list/list.go: what the two writes of a link do to chains and headers.
use roundtrip.Base.{ℕ, ◌≡◌, refl, ap, ◌∙◌, List, [], ◌∷◌, false, none, some, ◌==◌, arith}
use roundtrip.Linked.{Ptr, ptr_eq, Cell, Heap, update, link_next, link_prev}
use roundtrip.TokenList.{Elem}
use roundtrip.Linked.Segments.{first, last, Seg, has, Distinct, Seg-frame, apart}

-- The writes spare the other elements.
pub link_next-other :
    (k : ℕ) (p m : Ptr) (h : Heap) (a : ℕ)
    → ptr_eq p (some a) ≡ false
    → (link_next k p m h).cell a ≡ h.cell a
unfolding link_next
link_next-other k none m h a d = refl
link_next-other k (some i) m h a d = ground arith

pub link_prev-other :
    (k : ℕ) (p m : Ptr) (h : Heap) (a : ℕ)
    → ptr_eq p (some a) ≡ false
    → (link_prev k p m h).cell a ≡ h.cell a
unfolding link_prev
link_prev-other k none m h a d = refl
link_prev-other k (some i) m h a d = ground arith

pub last-ne :
    (p : Ptr) (es : List Elem) (a : ℕ)
    → ptr_eq p (some a) ≡ false
    → has a es ≡ false
    → ptr_eq (last p es) (some a) ≡ false
last-ne p [] a d n = d
last-ne p (e ∷ es) a d n = last-ne (some e.id) es a (ground arith) (ground arith)

pub first-ne :
    (es : List Elem) (n : Ptr) (a : ℕ)
    → ptr_eq n (some a) ≡ false
    → has a es ≡ false
    → ptr_eq (first es n) (some a) ≡ false
first-ne [] n a d x = d
first-ne (e ∷ es) n a d x = ground arith

update_self : {A : Type 0} (f : ℕ → A) (i : ℕ) (x : A) → update f i x i ≡ x
update_self f i x = ground arith

link_next_self :
    (k i : ℕ) (m : Ptr) (h : Heap)
    → (link_next k (some i) m h).cell i ≡ record (h.cell i) { next = m }
unfolding link_next
link_next_self k i m h = update_self h.cell i (record (h.cell i) { next = m })

link_prev_self :
    (k i : ℕ) (q : Ptr) (h : Heap)
    → (link_prev k (some i) q h).cell i ≡ record (h.cell i) { prev = q }
unfolding link_prev
link_prev_self k i q h = update_self h.cell i (record (h.cell i) { prev = q })

module _ (k l : ℕ) where
  -- The next pointer of the last element is replaced.
  pub link_next-Seg :
      (h : Heap) (p : Ptr) (es : List Elem) (n m : Ptr)
      → Distinct es
      → Seg h l p es n
      → Seg (link_next k (last p es) m h) l p es m
  link_next-Seg h p [] n m d s = tt
  link_next-Seg h p (e ∷ []) n m d (c, s) =
      (link_next_self k e.id m h ∙ ap {A = Cell} (λ x. record x { next = m }) c, tt)
  link_next-Seg h p (e ∷ f ∷ es) n m (x, d) (c, s) =
      let same =
        link_next-other k (last (some f.id) es) m h e.id
          (last-ne (some f.id) es e.id (ground arith) (ground arith)) in
      (same ∙ c, link_next-Seg h (some e.id) (f ∷ es) n m d s)

  pub link_prev-Seg :
      (h : Heap) (p : Ptr) (es : List Elem) (n q : Ptr)
      → Distinct es
      → Seg h l p es n
      → Seg (link_prev k (first es n) q h) l q es n
  link_prev-Seg h p [] n q d s = tt
  link_prev-Seg h p (e ∷ es) n q (x, d) (c, s) = (
    link_prev_self k e.id q h ∙ ap {A = Cell} (λ x. record x { prev = q }) c,
    Seg-frame l h (link_prev k (some e.id) q h) (some e.id) es n
        (λ a m. link_prev-other k (some e.id) q h a (apart a e.id es x m)) s,
  )

pub last_some : (i : ℕ) (es : List Elem) → (j : ℕ) × (last (some i) es ≡ some j)
last_some i [] = (i, refl)
last_some i (e ∷ es) = last_some e.id es

-- What the writes do to the headers.
module _ (l : ℕ) (h : Heap) where
  pub link_next-head :
      (es : List Elem) (n m : Ptr)
      → (h.header l).head ≡ first es n
      → ((link_next l (last none es) m h).header l).head ≡ first es m
  unfolding link_next
  link_next-head [] n m e = ground arith
  link_next-head (x ∷ es) n m e = let (j, y) = last_some x.id es in rw y e

  pub link_next-tail : (p m : Ptr) → ((link_next l p m h).header l).tail ≡ (h.header l).tail
  unfolding link_next
  link_next-tail none m = ground arith
  link_next-tail (some i) m = refl

  pub link_next-len : (p m : Ptr) → ((link_next l p m h).header l).len ≡ (h.header l).len
  unfolding link_next
  link_next-len none m = ground arith
  link_next-len (some i) m = refl

  pub link_next_outside :
      (p m : Ptr) (k : ℕ) → (k == l) ≡ false → (link_next l p m h).header k ≡ h.header k
  unfolding link_next
  link_next_outside none m k d = ground arith
  link_next_outside (some i) m k d = refl

  pub link_next-fresh : (p m : Ptr) → (link_next l p m h).fresh ≡ h.fresh
  unfolding link_next
  link_next-fresh none m = refl
  link_next-fresh (some i) m = refl

  pub link_prev-tail :
      (es : List Elem) (p q : Ptr)
      → (h.header l).tail ≡ last p es
      → ((link_prev l (first es none) q h).header l).tail ≡ last q es
  unfolding link_prev
  link_prev-tail [] p q e = ground arith
  link_prev-tail (x ∷ es) p q e = e

  pub link_prev-head : (p m : Ptr) → ((link_prev l p m h).header l).head ≡ (h.header l).head
  unfolding link_prev
  link_prev-head none m = ground arith
  link_prev-head (some i) m = refl

  pub link_prev-len : (p m : Ptr) → ((link_prev l p m h).header l).len ≡ (h.header l).len
  unfolding link_prev
  link_prev-len none m = ground arith
  link_prev-len (some i) m = refl

  pub link_prev_outside :
      (p m : Ptr) (k : ℕ) → (k == l) ≡ false → (link_prev l p m h).header k ≡ h.header k
  unfolding link_prev
  link_prev_outside none m k d = ground arith
  link_prev_outside (some i) m k d = refl

  pub link_prev-fresh : (p m : Ptr) → (link_prev l p m h).fresh ≡ h.fresh
  unfolding link_prev
  link_prev-fresh none m = refl
  link_prev-fresh (some i) m = refl
