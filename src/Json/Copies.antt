-- ===== src/Json/Copies.antt =====
-- internal/sst/node.go: a node and its clone stand for the same value.
use roundtrip.Base.{arith, ◌==◌, true, ℕ, ◌≡◌, refl, Text, List, Option, some}
use roundtrip.Decoder.{Node, node, Nodes, nil, cons, start_of}
use roundtrip.Json.Views.{map_json_inv, word_at_inv}
use roundtrip.Json.{
  word_at, boolean, null_value, Json, members, items, Items, item, Members, member, json_of,
  items_of, members_of,
}
use roundtrip.Syntax.{SyntaxOptions}
use roundtrip.Token.{
  NodeType, object, object_field, array, array_element, string_node, number_node, bool_node,
  null_node, Token,
}
use roundtrip.TokenList.{Elem, value_at}
use roundtrip.Tree.Copies.{on_some_inv}
use roundtrip.Tree.{clone_node, clone_nodes, field_name, child}

module _ (copy : ℕ → Option ℕ) where
  clone_node_inv :
      (t : NodeType) (s e : ℕ) (cs : Nodes) (m : Node)
      → clone_node copy (node t s e cs) ≡ some m
      → (s' e' : ℕ) × (ds : Nodes) × (copy s ≡ some s')
        × (copy e ≡ some e')
        × (clone_nodes copy cs ≡ some ds)
        × (node t s' e' ds ≡ m)
  unfolding clone_node
  clone_node_inv t s e cs m h =
      let (s', hs, h1) = on_some_inv (copy s) _ m h in
      let (e', he, h2) = on_some_inv (copy e) _ m h1 in
      let (ds, hd, h3) = on_some_inv (clone_nodes copy cs) _ m h2 in (s', e', ds, hs, he, hd, cc h3)

  clone_nodes_inv :
      (n : Node) (ns ms : Nodes)
      → clone_nodes copy (cons n ns) ≡ some ms
      → (m : Node) × (ms' : Nodes) × (clone_node copy n ≡ some m)
        × (clone_nodes copy ns ≡ some ms')
        × (cons m ms' ≡ ms)
  unfolding clone_nodes
  clone_nodes_inv n ns ms h =
      let (m, hm, h1) = on_some_inv (clone_node copy n) _ ms h in
      let (ms', hs, h2) = on_some_inv (clone_nodes copy ns) _ ms h1 in (m, ms', hm, hs, cc h2)

  clone_nil : (ms : Nodes) → clone_nodes copy nil ≡ some ms → nil ≡ ms
  unfolding clone_nodes
  clone_nil ms h = cc h

  -- the key and the value of a field, and the value of an element, when they are cloned
  clone_field_inv :
      (s e : ℕ) (k v : Node) (ns ms : Nodes)
      → clone_nodes copy (cons (node object_field s e (cons k (cons v nil))) ns) ≡ some ms
      → (s' e' : ℕ) × (k' v' : Node) × (ns' : Nodes) × (clone_node copy k ≡ some k')
        × (clone_node copy v ≡ some v')
        × (clone_nodes copy ns ≡ some ns')
        × (cons (node object_field s' e' (cons k' (cons v' nil))) ns' ≡ ms)
  clone_field_inv s e k v ns ms h =
      let (f, ns', hf, hn, q) =
        clone_nodes_inv (node object_field s e (cons k (cons v nil))) ns ms h in
      let (s', e', ds, _, _, hd, qf) = clone_node_inv object_field s e (cons k (cons v nil)) f hf in
      let (k', vs, hk, hv, qk) = clone_nodes_inv k (cons v nil) ds hd in
      let (v', none', hv', hnil, qv) = clone_nodes_inv v nil vs hv in
      let qn = clone_nil none' hnil in
      (s', e', k', v', ns', hk, hv', hn, rw (← q, ← qf, ← qk, ← qv, ← qn) refl)

  clone_element_inv :
      (s e : ℕ) (v : Node) (ns ms : Nodes)
      → clone_nodes copy (cons (node array_element s e (cons v nil)) ns) ≡ some ms
      → (s' e' : ℕ) × (v' : Node) × (ns' : Nodes) × (clone_node copy v ≡ some v')
        × (clone_nodes copy ns ≡ some ns')
        × (cons (node array_element s' e' (cons v' nil)) ns' ≡ ms)
  clone_element_inv s e v ns ms h =
      let (f, ns', hf, hn, q) = clone_nodes_inv (node array_element s e (cons v nil)) ns ms h in
      let (s', e', vs, _, _, hv, qf) = clone_node_inv array_element s e (cons v nil) f hf in
      let (v', none', hv', hnil, qv) = clone_nodes_inv v nil vs hv in
      let qn = clone_nil none' hnil in (s', e', v', ns', hv', hn, rw (← q, ← qf, ← qv, ← qn) refl)

  clone_start : (n m : Node) → clone_node copy n ≡ some m → copy (start_of n) ≡ some (start_of m)
  clone_start (node t s e cs) m h =
      let (s', e', ds, hs, _, _, q) = clone_node_inv t s e cs m h in rw (← q) hs

  module _ (es es' : List Elem) (opts : SyntaxOptions)
      (moves : (i j : ℕ) (t : Token)
        → copy i ≡ some j
        → value_at es i ≡ some t
        → value_at es' j ≡ some t) where
    field_name-clone :
        (s e s' e' : ℕ) (k v k' v' : Node) (name : Text)
        → clone_node copy k ≡ some k'
        → field_name es (node object_field s e (cons k (cons v nil))) ≡ some name
        → field_name es' (node object_field s' e' (cons k' (cons v' nil))) ≡ some name
    unfolding child
    field_name-clone s e s' e' k v k' v' name hk h =
        let (t, ht, hn) = on_some_inv (value_at es (start_of k)) _ name h in
        rw (moves (start_of k) (start_of k') t (clone_start k k' hk) ht) hn

    word_at-moved :
        (s e s' e' : ℕ) (make : Text → Json) (v : Json)
        → copy s ≡ some s'
        → copy e ≡ some e'
        → word_at es s e make ≡ some v
        → word_at es' s' e' make ≡ some v
    word_at-moved s e s' e' make v hs he h =
        let (t, q, ht, na, k) = word_at_inv es s e make v h in
        let same : s' ≡ e' = cc (hs, he, q) in
        let one : (s' == e') ≡ true = ground arith in rw (one, moves s s' t hs ht, na, k) refl

    mutual
      unfolding json_of items_of members_of

      -- A clone whose copies stand in another list has the value of the node.
      pub json_of-clone_node :
          (n m : Node) (v : Json)
          → clone_node copy n ≡ some m
          → json_of es opts n ≡ some v
          → json_of es' opts m ≡ some v
      json_of-clone_node (node object s e cs) m v hc h =
          let (s', e', ds, hs, he, hd, q) = clone_node_inv object s e cs m hc in
          let (ms, hm, qv) = map_json_inv members (members_of es opts cs) v h in
          let again = members_of-clone_nodes cs ds ms hd hm in rw (← q, again, qv) refl
      json_of-clone_node (node array s e cs) m v hc h =
          let (s', e', ds, hs, he, hd, q) = clone_node_inv array s e cs m hc in
          let (vs, hm, qv) = map_json_inv items (items_of es opts cs) v h in
          let again = items_of-clone_nodes cs ds vs hd hm in rw (← q, again, qv) refl
      json_of-clone_node (node string_node s e cs) m v hc h =
          let (s', e', ds, hs, he, hd, q) = clone_node_inv string_node s e cs m hc in
          let (t, ht, hv) = on_some_inv (value_at es s) _ v h in rw (← q, moves s s' t hs ht) hv
      json_of-clone_node (node number_node s e cs) m v hc h =
          let (s', e', ds, hs, he, hd, q) = clone_node_inv number_node s e cs m hc in
          let (t, ht, hv) = on_some_inv (value_at es s) _ v h in rw (← q, moves s s' t hs ht) hv
      json_of-clone_node (node bool_node s e cs) m v hc h =
          let (s', e', ds, hs, he, hd, q) = clone_node_inv bool_node s e cs m hc in
          rw (← q) (word_at-moved s e s' e' boolean v hs he h)
      json_of-clone_node (node null_node s e cs) m v hc h =
          let (s', e', ds, hs, he, hd, q) = clone_node_inv null_node s e cs m hc in
          rw (← q) (word_at-moved s e s' e' null_value v hs he h)
      json_of-clone_node _ m v hc h = cc h

      pub items_of-clone_nodes :
          (cs ds : Nodes) (vs : Items)
          → clone_nodes copy cs ≡ some ds
          → items_of es opts cs ≡ some vs
          → items_of es' opts ds ≡ some vs
      items_of-clone_nodes nil ds vs hc h = rw (← clone_nil ds hc) h
      items_of-clone_nodes (cons (node array_element s e (cons v nil)) ns) ds vs hc h =
          let (s', e', v', ns', hv, hn, q) = clone_element_inv s e v ns ds hc in
          let (x, hx, h1) = on_some_inv (json_of es opts v) _ vs h in
          let (rest, hr, qv) = map_json_inv (item x) (items_of es opts ns) vs h1 in
          let first = json_of-clone_node v v' x hv hx in
          let more = items_of-clone_nodes ns ns' rest hn hr in rw (← q, first, more, qv) refl
      items_of-clone_nodes _ ds vs hc h = cc h

      pub members_of-clone_nodes :
          (cs ds : Nodes) (ms : Members)
          → clone_nodes copy cs ≡ some ds
          → members_of es opts cs ≡ some ms
          → members_of es' opts ds ≡ some ms
      members_of-clone_nodes nil ds ms hc h = rw (← clone_nil ds hc) h
      members_of-clone_nodes (cons (node object_field s e (cons k (cons v nil))) ns) ds ms hc h =
          let (s', e', k', v', ns', hk, hv, hn, q) = clone_field_inv s e k v ns ds hc in
          let (name, hname, h1) =
            on_some_inv (field_name es (node object_field s e (cons k (cons v nil)))) _ ms h in
          let (x, hx, h2) = on_some_inv (json_of es opts v) _ ms h1 in
          let (rest, hr, qv) = map_json_inv (member name x) (members_of es opts ns) ms h2 in
          let key = field_name-clone s e s' e' k v k' v' name hk hname in
          let first = json_of-clone_node v v' x hv hx in
          let more = members_of-clone_nodes ns ns' rest hn hr in rw (← q, key, first, more, qv) refl
      members_of-clone_nodes _ ds ms hc h = cc h
