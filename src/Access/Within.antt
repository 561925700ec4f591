-- ===== src/Access/Within.antt =====
-- json/path.go: a node that is reached starts and ends in the token list, as do its descendants.
use roundtrip.Access.{value_child, node_at, node_value, flat}
use roundtrip.Base.{[], ℕ, zero, suc, ◌≡◌, ap, ◌∙◌, inl, inr, List, ◌∷◌, Option-cases, some}
use roundtrip.Decoder.{Node, node, Nodes, nil, cons}
use roundtrip.Edit.Insertion.{children-Within}
use roundtrip.Token.{object_field, array_element}
use roundtrip.TokenList.{Elem}
use roundtrip.Tree.Clones.{Within, AllWithin}
use roundtrip.Tree.Copies.{on_some_inv}
use roundtrip.Tree.{child, children_of}

child-Within :
    (es : List Elem) (ns : Nodes) (i : ℕ) (c : Node)
    → AllWithin es ns
    → child ns i ≡ some c
    → Within es c
unfolding child AllWithin
child-Within es nil i c w h = cc h
child-Within es (cons n ns) zero c (a, w) h = let q : n ≡ c = cc h in rw (← q) a
child-Within es (cons n ns) (suc i) c (a, w) h = child-Within es ns i c w h

value-Within :
    (es : List Elem) (c v : Node) → Within es c → flat (node_value c) ≡ some v → Within es v
value-Within es (node object_field s e cs) v w h = elim (Option-cases (child cs 1)) [
  | inl o ↦ cc (rw o at h)
  | inr (x, o) ↦
      let q : x ≡ v = cc (rw o at h) in
      child-Within es cs 1 v (children-Within es (node object_field s e cs) w)
        (o ∙ ap (λ z. some z) q)
]
value-Within es (node array_element s e cs) v w h = elim (Option-cases (child cs 0)) [
  | inl o ↦ cc (rw o at h)
  | inr (x, o) ↦
      let q : x ≡ v = cc (rw o at h) in
      child-Within es cs 0 v (children-Within es (node array_element s e cs) w)
        (o ∙ ap (λ z. some z) q)
]
value-Within es _ v w h = cc h

pub node_at-Within :
    (es : List Elem) (is : List ℕ) (n m : Node) → Within es n → node_at n is ≡ some m → Within es m
node_at-Within es [] n m w h = let q : n ≡ m = cc h in rw (← q) w
node_at-Within es (i ∷ is) n m w h =
    let (c, hc, h1) = on_some_inv (value_child n i) _ m h in
    let (f, hf, hv) = on_some_inv (child (children_of n) i) _ c hc in
    node_at-Within es is c m
      (value-Within es f c (child-Within es (children_of n) i f (children-Within es n w) hf) hv) h1
