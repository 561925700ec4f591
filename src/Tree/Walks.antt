-- ===== src/Tree/Walks.antt =====
-- internal/sst/node.go: `WalkNodes` and `WalkLeaves`, and the iterators of json/meta.go over them. The
-- function that is called for a node takes and returns a state, and says whether the walk goes on.
use roundtrip.Base.{
  ◌≡◌, refl, ap, sym, ◌∙◌, List, [], ◌∷◌, ◌++◌, Bool, true, false, if◌then◌else◌, Bool-cases, inl,
  inr,
}
use roundtrip.Decoder.{Node, node, Nodes, nil, cons}
use roundtrip.Tree.{children_of}

abbrev pub no_children : Nodes → Bool
no_children nil = true
no_children (cons n ns) = false

-- every node before its descendants, from left to right
mutual
  pub preorder : Node → List Node
  preorder (node t s e cs) = node t s e cs ∷ preorder_all cs

  pub preorder_all : Nodes → List Node
  preorder_all nil = []
  preorder_all (cons n ns) = preorder n ++ preorder_all ns

abbrev pub leaves_of : List Node → List Node
leaves_of [] = []
leaves_of (n ∷ ns) = if no_children (children_of n) then n ∷ leaves_of ns else leaves_of ns

module _ {S : Type 0} where
  abbrev pub and_then : Bool × S → (S → Bool × S) → Bool × S
  and_then (true, s) k = k s
  and_then (false, s) k = (false, s)

  module _ (yield : Node → S → Bool × S) where
    mutual
      -- `WalkNodes`, and its loop
      pub walk_nodes : Node → S → Bool × S
      walk_nodes (node t s e cs) st = and_then (yield (node t s e cs) st) (walk_node_children cs)

      pub walk_node_children : Nodes → S → Bool × S
      walk_node_children nil st = (true, st)
      walk_node_children (cons n ns) st = and_then (walk_nodes n st) (walk_node_children ns)

    mutual
      -- `WalkLeaves`, and its loop
      pub walk_leaves : Node → S → Bool × S
      walk_leaves (node t s e nil) st = yield (node t s e nil) st
      walk_leaves (node t s e (cons c cs)) st = and_then (walk_leaves c st) (walk_leaf_children cs)

      pub walk_leaf_children : Nodes → S → Bool × S
      walk_leaf_children nil st = (true, st)
      walk_leaf_children (cons n ns) st = and_then (walk_leaves n st) (walk_leaf_children ns)

    -- the calls for the nodes of a list, as long as the walk goes on
    abbrev pub feed : List Node → S → Bool × S
    feed [] st = (true, st)
    feed (n ∷ ns) st = and_then (yield n st) (feed ns)

    and_then_assoc :
        (r : Bool × S) (k l : S → Bool × S)
        → and_then (and_then r k) l ≡ and_then r (λ s. and_then (k s) l)
    and_then_assoc (true, s) k l = refl
    and_then_assoc (false, s) k l = refl

    stay_going : (r : Bool × S) → and_then r (λ s. (true, s)) ≡ r
    stay_going (true, s) = refl
    stay_going (false, s) = refl

    feed-append :
        (xs ys : List Node) (st : S) → feed (xs ++ ys) st ≡ and_then (feed xs st) (feed ys)
    feed-append [] ys st = refl
    feed-append (x ∷ xs) ys st =
        ap (and_then (yield x st)) (λ i s. feed-append xs ys s i)
        ∙ sym (and_then_assoc (yield x st) (feed xs) (feed ys))

    mutual
      unfolding walk_nodes walk_node_children preorder preorder_all

      walk_nodes-feed : (n : Node) (st : S) → walk_nodes n st ≡ feed (preorder n) st
      walk_nodes-feed (node t s e cs) st =
          ap (and_then (yield (node t s e cs) st)) (λ i z. walk_node_children-feed cs z i)

      walk_node_children-feed :
          (ns : Nodes) (st : S) → walk_node_children ns st ≡ feed (preorder_all ns) st
      walk_node_children-feed nil st = refl
      walk_node_children-feed (cons n ns) st =
          ap (λ r. and_then r (walk_node_children ns)) (walk_nodes-feed n st)
          ∙ ap (and_then (feed (preorder n) st)) (λ i z. walk_node_children-feed ns z i)
          ∙ sym (feed-append (preorder n) (preorder_all ns) st)

    leaves_of-append : (xs ys : List Node) → leaves_of (xs ++ ys) ≡ leaves_of xs ++ leaves_of ys
    leaves_of-append [] ys = refl
    leaves_of-append (x ∷ xs) ys = elim (Bool-cases (no_children (children_of x))) [
      | inl y ↦ rw y (ap (◌∷◌ x) (leaves_of-append xs ys))
      | inr n ↦ rw n (leaves_of-append xs ys)
    ]

    mutual
      unfolding walk_leaves walk_leaf_children preorder preorder_all

      walk_leaves-feed : (n : Node) (st : S) → walk_leaves n st ≡ feed (leaves_of (preorder n)) st
      walk_leaves-feed (node t s e nil) st = sym (stay_going (yield (node t s e nil) st))
      walk_leaves-feed (node t s e (cons c cs)) st = walk_leaf_children-feed (cons c cs) st

      walk_leaf_children-feed :
          (ns : Nodes) (st : S) → walk_leaf_children ns st ≡ feed (leaves_of (preorder_all ns)) st
      walk_leaf_children-feed nil st = refl
      walk_leaf_children-feed (cons n ns) st =
          ap (λ r. and_then r (walk_leaf_children ns)) (walk_leaves-feed n st)
          ∙ ap (and_then (feed (leaves_of (preorder n)) st)) (λ i z. walk_leaf_children-feed ns z i)
          ∙ sym (feed-append (leaves_of (preorder n)) (leaves_of (preorder_all ns)) st)
          ∙ ap (λ l. feed l st) (sym (leaves_of-append (preorder n) (preorder_all ns)))

    -- For every callback with a state: `WalkNodes` calls it for the nodes of a tree in preorder, and
    -- `WalkLeaves` for those of them that have no children, both until the callback stops the walk, and
    -- both say whether it did not.
    pub walks-feed :
        (n : Node) (st : S)
        → (walk_nodes n st ≡ feed (preorder n) st)
          × (walk_leaves n st ≡ feed (leaves_of (preorder n)) st)
    walks-feed n st = (walk_nodes-feed n st, walk_leaves-feed n st)
