-- ===== src/Linked/Relabel.antt =====
-- internal/list/list.go: the loop of `splice`, which hands elements to another list.
use roundtrip.Base.{
  ℕ, zero, suc, ◌<◌, ◌≡◌, refl, ap, ◌∙◌, List, [], ◌∷◌, true, false, ◌==◌, none, some, length,
  arith,
}
use roundtrip.Linked.Segments.{first, Seg, has, Distinct, Seg-frame, apart}
use roundtrip.Linked.{Ptr, ptr_eq, Cell, Heap, ok, relabel, set_list}
use roundtrip.TokenList.{Elem}

ptr_eq_refl : (p : Ptr) → ptr_eq p p ≡ true
ptr_eq_refl none = refl
ptr_eq_refl (some a) = ground arith

set_list-other :
    (i : ℕ) (p : Ptr) (h : Heap) (a : ℕ) → (i == a) ≡ false → (set_list i p h).cell a ≡ h.cell a
unfolding set_list
set_list-other i p h a d = ground arith

set_list_self :
    (i : ℕ) (p : Ptr) (h : Heap) → (set_list i p h).cell i ≡ record (h.cell i) { list = p }
unfolding set_list
set_list_self i p h = ground arith

set_list-header : (i : ℕ) (p : Ptr) (h : Heap) (k : ℕ) → (set_list i p h).header k ≡ h.header k
unfolding set_list
set_list-header i p h k = refl

set_list-fresh : (i : ℕ) (p : Ptr) (h : Heap) → (set_list i p h).fresh ≡ h.fresh
unfolding set_list
set_list-fresh i p h = refl

-- `stop` is none of the elements.
abbrev pub Beyond : Ptr → List Elem → Type 0
Beyond stop [] = Unit
Beyond stop (e ∷ es) = (ptr_eq (some e.id) stop ≡ false) × Beyond stop es

-- what the loop of `splice` does
pub record Relabelled (h g : Heap) (l : ℕ) (p : Ptr) (es : List Elem) (n : Ptr) : Type 0 where
  pub seg : Seg g l p es n
  pub cells : (a : ℕ) → has a es ≡ false → g.cell a ≡ h.cell a
  pub headers : (k : ℕ) → g.header k ≡ h.header k
  pub fresh : g.fresh ≡ h.fresh

relabel_stop : (k l : ℕ) (n : Ptr) (h : Heap) → relabel (suc k) l n n h ≡ ok tt h
unfolding relabel
relabel_stop k l none h = refl
relabel_stop k l (some i) h = rw (ptr_eq_refl (some i)) refl

relabel_step :
    (k l i : ℕ) (n : Ptr) (h : Heap)
    → ptr_eq (some i) n ≡ false
    → relabel (suc k) l (some i) n h ≡ relabel k l (h.cell i).next n (set_list i (some l) h)
unfolding relabel
relabel_step k l i n h d = rw d refl

pub relabel-Relabelled :
    (k l src : ℕ) (h : Heap) (p : Ptr) (es : List Elem) (n : Ptr)
    → Seg h src p es n
    → Distinct es
    → Beyond n es
    → length es < k
    → (g : Heap) × (relabel k l (first es n) n h ≡ ok tt g) × Relabelled h g l p es n
relabel-Relabelled zero l src h p es n s d b f = absurd (omega arith)
relabel-Relabelled (suc k) l src h p [] n s d b f = (
  h,
  relabel_stop k l n h,
  record { seg = tt; cells = λ a m. refl; headers = λ j. refl; fresh = refl },
)
relabel-Relabelled (suc k) l src h p (e ∷ es) n (c, s) (x, d) (b, bs) f =
    let h' = set_list e.id (some l) h in
    let next =
      (Seg-frame src h (set_list e.id (some l) h) (some e.id) es n
        (λ a m. set_list-other e.id (some l) h a (apart a e.id es x m)) s) in
    let (g, run, r) = relabel-Relabelled k l src h' (some e.id) es n next d bs (omega arith) in
    (
      g,
      relabel_step k l e.id n h b ∙ ap (λ q. relabel k l q n h') (ap (λ y. y.next) c) ∙ run,
      record {
        seg = (
          r.cells e.id x
              ∙ set_list_self e.id (some l) h
              ∙ ap {B = Cell} (λ (y : Cell). record y { list = some l }) c,
          r.seg,
        );
        cells = λ a m. r.cells a (ground arith) ∙ set_list-other e.id (some l) h a (ground arith);
        headers = λ j. r.headers j ∙ set_list-header e.id (some l) h j;
        fresh = r.fresh ∙ set_list-fresh e.id (some l) h;
      },
    )
