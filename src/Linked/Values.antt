-- ===== src/Linked/Values.antt =====
-- internal/list/list.go: `Values`.
use roundtrip.Base.{ℕ, zero, suc, ◌<◌, ◌≡◌, refl, ap, List, [], ◌∷◌, none, length, some, arith}
use roundtrip.Linked.Segments.{first, Seg, IsList}
use roundtrip.Linked.{Ptr, Cell, Heap, ok, values, values_from, rounds}
use roundtrip.TokenList.{Elem, values as values_of}

values_from-Seg :
    (h : Heap) (l : ℕ) (p : Ptr) (es : List Elem) (k : ℕ)
    → length es < k
    → Seg h l p es none
    → values_from k (first es none) h ≡ ok (values_of es) h
unfolding values_from
values_from-Seg h l p [] zero lt s = absurd (omega arith)
values_from-Seg h l p [] (suc k) lt s = refl
values_from-Seg h l p (e ∷ es) zero lt s = absurd (omega arith)
values_from-Seg h l p (e ∷ es) (suc k) lt (c, s) =
    rw
      (
        ap {A = Cell} (λ x. x.next) c,
        ap {A = Cell} (λ x. x.value) c,
        values_from-Seg h l (some e.id) es k (omega arith) s,
      )
      refl

-- `Values` of a list that holds `es` yields the values of `es` in order, and changes nothing.
pub values-IsList :
    {h : Heap} {l : ℕ} {es : List Elem} → IsList h l es → values l h ≡ ok (values_of es) h
unfolding values
values-IsList {h} {l} {es} is =
    rw is.head (values_from-Seg h l none es (rounds l h) (omega (arith, is.len)) is.seg)
