-- ===== src/Tree/Clones.antt =====
-- internal/sst/node.go: `Clone` returns, and the clone has the node's source text.
use roundtrip.Base.{
  ℕ, ◌+◌, ◌≡◌, refl, ap, sym, ◌∙◌, List, [], ◌∷◌, some, ◌==◌, true, Bool-cases, inl, inr, length,
  append-nil,
}
use roundtrip.Decoder.{Node, node, Nodes, nil, cons, start_of, end_of}
use roundtrip.Token.{literals}
use roundtrip.Tree.{bytes, node_tokens, clone_node, clone_nodes, clone}
use roundtrip.TokenList.{Elem, TokenList, values}
use roundtrip.TokenList.Ranges.Cuts.{cut-Cuts, named}
use roundtrip.TokenList.Ranges.{Range, cut, copies, copy_of}
use roundtrip.Tree.Copies.{clone-Cloned, node_tokens-Cloned, values-copies, node_tokens-Cuts}

-- Every node of a tree starts and ends at elements of the list.
unfoldable mutual
  pub Within : List Elem → Node → Type 0
  Within es (node t s e cs) = (named s es ≡ true) × (named e es ≡ true) × AllWithin es cs

  pub AllWithin : List Elem → Nodes → Type 0
  AllWithin es nil = Unit
  AllWithin es (cons n ns) = Within es n × AllWithin es ns

copy_of_named : (es : List Elem) (n i : ℕ) → named i es ≡ true → (j : ℕ) × (copy_of es n i ≡ some j)
unfolding copy_of
copy_of_named [] n i h = cc
copy_of_named (e ∷ es) n i h = elim (Bool-cases (e.id == i)) [
  | inl y ↦ (n, rw y refl)
  | inr m ↦ let (j, q) = copy_of_named es (n + 1) i (rw m at h) in (j, rw m q)
]

mutual
  unfolding clone_node clone_nodes Within AllWithin

  clone_node_total :
      (es : List Elem) (k : ℕ) (n : Node)
      → Within es n
      → (m : Node) × (clone_node (copy_of es k) n ≡ some m)
  clone_node_total es k (node t s e cs) (hs, he, hc) =
      let (s', p) = copy_of_named es k s hs in
      let (e', q) = copy_of_named es k e he in
      let (ds, r) = clone_nodes_total es k cs hc in (node t s' e' ds, rw (p, q, r) refl)

  clone_nodes_total :
      (es : List Elem) (k : ℕ) (ns : Nodes)
      → AllWithin es ns
      → (ms : Nodes) × (clone_nodes (copy_of es k) ns ≡ some ms)
  clone_nodes_total es k nil h = (nil, refl)
  clone_nodes_total es k (cons n ns) (h, hs) =
      let (m, p) = clone_node_total es k n h in
      let (ms, q) = clone_nodes_total es k ns hs in (cons m ms, rw (p, q) refl)

pub clone_total :
    (fresh : ℕ) (es : List Elem) (n : Node) (r : Range)
    → cut es (start_of n) (end_of n) ≡ some r
    → Within r.inside n
    → (m : Node) × (ts : TokenList) × (clone fresh es n ≡ some (m, ts))
unfolding clone
clone_total fresh es n r c w =
    let (m, h) = clone_node_total r.inside fresh n w in
    (
      m,
      record { elems = copies r.inside fresh; fresh = fresh + length (copies r.inside fresh) },
      rw (c, h) refl,
    )

-- `Clone` of a node whose range is in order in its list, and whose descendants start and end in that
-- range, returns a node and a list that holds the tokens of the range in order, and the source text of
-- the clone in that list is the source text of the node.
pub bytes-clone :
    (fresh : ℕ) (es : List Elem) (n : Node) (r : Range)
    → cut es (start_of n) (end_of n) ≡ some r
    → Within r.inside n
    → (m : Node) × (ts : TokenList) × (clone fresh es n ≡ some (m, ts))
      × (values ts.elems ≡ values r.inside)
      × (bytes ts.elems m ≡ bytes es n)
bytes-clone fresh es n r c w =
    let (m, ts, h) = clone_total fresh es n r c w in
    let d = clone-Cloned fresh es n m ts r c h in
    let same = node_tokens-Cloned [] [] tt d in
    (
      m,
      ts,
      h,
      ap values d.elems ∙ values-copies r.inside fresh,
      ap literals (
          ap (λ l. node_tokens l m) (sym (append-nil ts.elems))
          ∙ same
          ∙ sym (node_tokens-Cuts es n r (cut-Cuts es (start_of n) (end_of n) r c))),
    )
