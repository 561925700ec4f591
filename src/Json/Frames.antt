-- ===== src/Json/Frames.antt =====
-- A node stands for the same value in a list that keeps the values of the old one.
use roundtrip.Base.{ℕ, ◌≡◌, refl, List, some}
use roundtrip.Decoder.{Node, node, Nodes, nil, cons}
use roundtrip.Json.Copies.{json_of-clone_node, items_of-clone_nodes, members_of-clone_nodes}
use roundtrip.Json.{Json, Items, Members, json_of, items_of, members_of}
use roundtrip.Syntax.{SyntaxOptions}
use roundtrip.Token.{Token}
use roundtrip.TokenList.{Elem, value_at}
use roundtrip.Tree.{clone_node, clone_nodes}

mutual
  unfolding clone_node clone_nodes

  clone_node-some : (n : Node) → clone_node some n ≡ some n
  clone_node-some (node t s e cs) = rw (clone_nodes-some cs) refl

  clone_nodes-some : (ns : Nodes) → clone_nodes some ns ≡ some ns
  clone_nodes-some nil = refl
  clone_nodes-some (cons n ns) = rw (clone_node-some n, clone_nodes-some ns) refl

abbrev pub Keeps : List Elem → List Elem → Type 0
Keeps es es' = (i : ℕ) (t : Token) → value_at es i ≡ some t → value_at es' i ≡ some t

module _ (es es' : List Elem) (opts : SyntaxOptions) (keeps : Keeps es es') where
  moves : (i j : ℕ) (t : Token) → some i ≡ some j → value_at es i ≡ some t → value_at es' j ≡ some t
  moves i j t q h = let same : i ≡ j = cc q in rw (← same) (keeps i t h)

  pub json_of-Keeps :
      (n : Node) (v : Json) → json_of es opts n ≡ some v → json_of es' opts n ≡ some v
  json_of-Keeps n v h = json_of-clone_node some es es' opts moves n n v (clone_node-some n) h

  pub items_of-Keeps :
      (ns : Nodes) (vs : Items) → items_of es opts ns ≡ some vs → items_of es' opts ns ≡ some vs
  items_of-Keeps ns vs h =
      items_of-clone_nodes some es es' opts moves ns ns vs (clone_nodes-some ns) h

  pub members_of-Keeps :
      (ns : Nodes) (ms : Members)
      → members_of es opts ns ≡ some ms
      → members_of es' opts ns ≡ some ms
  members_of-Keeps ns ms h =
      members_of-clone_nodes some es es' opts moves ns ns ms (clone_nodes-some ns) h
