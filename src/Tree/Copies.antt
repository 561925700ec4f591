-- ===== src/Tree/Copies.antt =====
-- internal/sst/node.go: the tokens of a node, and of its clone.
use roundtrip.Base.{
  suc, subst, ℕ, ◌+◌, ◌<◌, ◌≤◌, ◌≡◌, refl, ap, sym, ◌∙◌, List, [], ◌∷◌, ◌++◌, Option, none, some,
  ◌==◌, false, Bool-cases, inl, inr, Option-cases, if◌then◌else◌, All, length, arith,
}
use roundtrip.Decoder.{Node, node, start_of, end_of}
use roundtrip.Token.{Token, is_anchor}
use roundtrip.Tree.{tokens_until, node_tokens, clone_node, clone_nodes, clone, cloned, on_some}
use roundtrip.TokenList.{Elem, TokenList, values}
use roundtrip.TokenList.Ranges.Cuts.{Cuts, cut-Cuts}
use roundtrip.TokenList.Ranges.{Range, through, cut, from, copies, copy_of}

abbrev pub visible : List Token → List Token
visible [] = []
visible (t ∷ ts) = if is_anchor t.type then visible ts else t ∷ visible ts

pub tokens_until-through :
    (b : ℕ) (es : List Elem) (r : Range)
    → through b es ≡ some r
    → tokens_until b es ≡ visible (values r.inside)
unfolding through tokens_until
tokens_until-through b [] r h = cc
tokens_until-through b (e ∷ es) r h = elim (Bool-cases (e.id == b)) [
  | inl y ↦
      let q : r ≡ record { left = []; inside = e ∷ []; right = es } = ground arith in rw (q, y) refl
  | inr n ↦ elim (Option-cases (through b es)) [
    | inl o ↦ absurd (ground arith)
    | inr (s, o) ↦
        let q : r ≡ record s { inside = e ∷ s.inside } = ground arith in
        rw (q, n, tokens_until-through b es s o) refl
  ]
]

-- the tokens of a node whose range is known
pub node_tokens-Cuts :
    (es : List Elem) (n : Node) (r : Range)
    → Cuts es (start_of n) (end_of n) r
    → node_tokens es n ≡ visible (values r.inside)
unfolding node_tokens
node_tokens-Cuts es n r c =
    rw c.starts (tokens_until-through (end_of n) (r.inside ++ r.right) _ c.ends)

pub values-copies : (es : List Elem) (n : ℕ) → values (copies es n) ≡ values es
unfolding copies
values-copies [] n = refl
values-copies (e ∷ es) n = ap (◌∷◌ e.value) (values-copies es (n + 1))

pub copy_of_bound :
    (es : List Elem) (n i j : ℕ) → copy_of es n i ≡ some j → (n ≤ j) × (j < n + length es)
unfolding copy_of
copy_of_bound [] n i j h = cc
copy_of_bound (e ∷ es) n i j h = elim (Bool-cases (e.id == i)) [
  | inl y ↦ (ground arith, ground arith)
  | inr m ↦ let (a, b) = copy_of_bound es (n + 1) i j (rw m at h) in (omega arith, omega arith)
]

-- The copy of the end of a range ends the copies.
pub through-copies :
    (es fs : List Elem) (b n j : ℕ) (r : Range)
    → through b es ≡ some r
    → copy_of r.inside n b ≡ some j
    → through j (copies r.inside n ++ fs)
      ≡ some (record { left = []; inside = copies r.inside n; right = fs })
unfolding through copies copy_of
through-copies [] fs b n j r h c = cc
through-copies (e ∷ es) fs b n j r h c = elim (Bool-cases (e.id == b)) [
  | inl y ↦
      let q : r ≡ record { left = []; inside = e ∷ []; right = es } = ground arith in
      let k : n ≡ j = ground arith in rw (q, k) (ground arith)
  | inr m ↦ elim (Option-cases (through b es)) [
    | inl o ↦ absurd (ground arith)
    | inr (s, o) ↦
        let q : r ≡ record s { inside = e ∷ s.inside } = ground arith in
        let d : copy_of s.inside (n + 1) b ≡ some j = ground arith in
        let (low, _) = copy_of_bound s.inside (n + 1) b j d in
        let other : (n == j) ≡ false = ground arith in
        rw (q, other, through-copies es fs b (n + 1) j s o d) refl
  ]
]

pub on_some_inv {ℓ κ} :
    {A : Type ℓ} {B : Type κ} (o : Option A) (k : A → Option B) (b : B)
    → on_some o k ≡ some b
    → (a : A) × (o ≡ some a) × (k a ≡ some b)
on_some_inv none k b h = cc
on_some_inv (some a) k b h = (a, refl, h)

clone_node_ends :
    (copy : ℕ → Option ℕ) (n m : Node)
    → clone_node copy n ≡ some m
    → (copy (start_of n) ≡ some (start_of m)) × (copy (end_of n) ≡ some (end_of m))
unfolding clone_node clone_nodes
clone_node_ends copy (node t s e cs) m h =
    let (s', hs, h1) = on_some_inv (copy s) _ m h in
    let (e', he, h2) = on_some_inv (copy e) _ m h1 in
    let (ds, hd, h3) = on_some_inv (clone_nodes copy cs) _ m h2 in
    let q : node t s' e' ds ≡ m = cc h3 in
    subst (λ x. (copy s ≡ some (start_of x)) × (copy e ≡ some (end_of x))) q (hs, he)

through-first :
    (b : ℕ) (es : List Elem) (r : Range)
    → through b es ≡ some r
    → (x : Elem) × (xs : List Elem) × (r.inside ≡ x ∷ xs)
unfolding through
through-first b [] r h = cc
through-first b (e ∷ es) r h = elim (Bool-cases (e.id == b)) [
  | inl y ↦ (e, [], ground arith)
  | inr n ↦ elim (Option-cases (through b es)) [
    | inl o ↦ absurd (ground arith)
    | inr (s, o) ↦ (e, s.inside, ground arith)
  ]
]

from-first : (es : List Elem) (a : ℕ) (x : Elem) (xs : List Elem) → from es a ≡ x ∷ xs → x.id ≡ a
unfolding from
from-first [] a x xs h = cc
from-first (e ∷ es) a x xs h = elim (Bool-cases (e.id == a)) [
  | inl y ↦ ground arith
  | inr n ↦ from-first es a x xs (rw n at h)
]

-- the copies that stand for a node
pub record Cloned (n : Node) (fresh : ℕ) (r : Range) (m : Node) (ts : TokenList) : Type 0 where
  pub elems : ts.elems ≡ copies r.inside fresh
  pub next : ts.fresh ≡ fresh + length r.inside
  pub start : start_of m ≡ fresh
  pub ends :
      (fs : List Elem)
      → through (end_of m) (copies r.inside fresh ++ fs)
        ≡ some (record { left = []; inside = copies r.inside fresh; right = fs })
  pub first : (x : Elem) × (xs : List Elem) × (copies r.inside fresh ≡ x ∷ xs) × (x.id ≡ fresh)

length-copies : (es : List Elem) (n : ℕ) → length (copies es n) ≡ length es
unfolding copies
length-copies [] n = refl
length-copies (e ∷ es) n = ap suc (length-copies es (n + 1))

copy_of_first :
    (es : List Elem) (x : Elem) (xs : List Elem) (n i : ℕ)
    → es ≡ x ∷ xs
    → x.id ≡ i
    → copy_of es n i ≡ some n
unfolding copy_of
copy_of_first es x xs n i h e = rw h (ground arith)

copies-first :
    (es : List Elem) (x : Elem) (xs : List Elem) (n : ℕ)
    → es ≡ x ∷ xs
    → (y : Elem) × (ys : List Elem) × (copies es n ≡ y ∷ ys) × (y.id ≡ n)
unfolding copies
copies-first es x xs n h =
    (record { id = n; value = x.value }, copies xs (n + 1), ap (λ l. copies l n) h, refl)

pub clone-Cloned :
    (fresh : ℕ) (es : List Elem) (n m : Node) (ts : TokenList) (r : Range)
    → cut es (start_of n) (end_of n) ≡ some r
    → clone fresh es n ≡ some (m, ts)
    → Cloned n fresh r m ts
unfolding clone
clone-Cloned fresh es n m ts r c h =
    let d = cut-Cuts es (start_of n) (end_of n) r c in
    let (x, xs, f) = through-first (end_of n) (r.inside ++ r.right) _ d.ends in
    let hc : cloned n fresh r ≡ some (m, ts) = rw c at h in
    let (m', hm, ht) = on_some_inv (clone_node (copy_of r.inside fresh) n) _ (m, ts) hc in
    let q : m' ≡ m = cc ht in
    let t : record { elems = copies r.inside fresh; fresh = fresh + length (copies r.inside fresh) }
        ≡ ts =
      cc ht in
    let (a, b) = clone_node_ends (copy_of r.inside fresh) n m' hm in
    let here = from-first es (start_of n) x (xs ++ r.right) (d.starts ∙ ap (λ l. l ++ r.right) f) in
    let (y, ys, g, z) = copies-first r.inside x xs fresh f in
    record {
      elems = ap (λ l. l.elems) (sym t);
      next = ap (λ l. l.fresh) (sym t) ∙ ap (λ k. fresh + k) (length-copies r.inside fresh);
      start = let e = copy_of_first r.inside x xs fresh (start_of n) f here in cc (a, e, q);
      ends = λ fs.
          through-copies (r.inside ++ r.right) fs (end_of n) fresh (end_of m) _ d.ends
            (b ∙ ap (λ z. some (end_of z)) q);
      first = (y, ys, g, z);
    }

from-left :
    (xs ys : List Elem) (i : ℕ) (y : Elem) (zs : List Elem)
    → All (λ e. e.id < i) xs
    → ys ≡ y ∷ zs
    → y.id ≡ i
    → from (xs ++ ys) i ≡ ys
unfolding from
from-left [] ys i y zs b h e = rw h (ground arith)
from-left (x ∷ xs) ys i y zs (l, b) h e =
    let n : (x.id == i) ≡ false = ground arith in rw n (from-left xs ys i y zs b h e)

-- The clone of a node has the tokens of the node, also where its list was moved behind elements that
-- are older.
pub node_tokens-Cloned :
    {n m : Node} {fresh : ℕ} {r : Range} {ts : TokenList} (xs ys : List Elem)
    → All (λ e. e.id < fresh) xs
    → Cloned n fresh r m ts
    → node_tokens (xs ++ (ts.elems ++ ys)) m ≡ visible (values r.inside)
unfolding node_tokens
node_tokens-Cloned {n} {m} {fresh} {r} {ts} xs ys old c =
    let (x, zs, f, i) = c.first in
    let there : from (xs ++ (copies r.inside fresh ++ ys)) fresh ≡ copies r.inside fresh ++ ys =
      from-left xs (copies r.inside fresh ++ ys) fresh x (zs ++ ys) old (ap (λ l. l ++ ys) f) i in
    rw (c.elems, c.start, there)
      (tokens_until-through (end_of m) (copies r.inside fresh ++ ys) _ (c.ends ys)
        ∙ ap visible (values-copies r.inside fresh))
