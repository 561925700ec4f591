-- ===== src/Changes/Updates.antt =====
-- json/path.go: a receiver in which the node that a pointer reaches was changed in its place stands for the
-- value in which what the pointer selects was exchanged.
use roundtrip.Access.Evaluates.{StepOk, stepped, pointer_token-StepOk}
use roundtrip.Access.{
  Stepped, to, refused, looked_or, object_field_at, object_field_node, array_value_at,
  element_at_token, pointer_token, Op, Reached, found, lost, crashed, below, go_on, walk, Cause,
}
use roundtrip.Base.{
  ℕ, ◌+◌, ◌≡◌, refl, ap, inl, inr, Text, List, [], ◌∷◌, true, false, Option, none, some, ltb, arith,
}
use roundtrip.Changes.{set_value, set_at, with_value}
use roundtrip.Edit.Renaming.{set_child}
use roundtrip.Decoder.{Node, node, Nodes}
use roundtrip.Json.Frames.{Keeps}
use roundtrip.Json.Updates.{
  put_member, put_item, put_value, put_all, items_of-put_item, members_of-put_member,
}
use roundtrip.Json.Views.{
  Searched, absent, present, object_field_index-Searched, nth-child, Kind, an_object, an_array,
  a_scalar, json_of-Kind,
}
use roundtrip.Json.{
  Json, members, items, Items, Members, json_of, items_of, members_of, select, select_all,
}
use roundtrip.Pointer.Positional.{index_of, index_value, pointer_array_index-index_of}
use roundtrip.Pointer.{ArrayIndex, index, invalid_append, invalid_path_segment, pointer_array_index}
use roundtrip.Syntax.{SyntaxOptions}
use roundtrip.Token.{object, array}
use roundtrip.TokenList.{Elem}
use roundtrip.Tree.{count, object_field_index}

module _ (es es' : List Elem) (opts : SyntaxOptions) (keeps : Keeps es es') where
  -- the node with a changed child, and the value with a changed part, that it stands for
  pub record Put (n : Node) (i : ℕ) (c : Node) (token : Text) (v y : Json) : Type 0 where
    pub node_put : Node
    pub value_put : Json
    pub sets : set_value n i c ≡ some node_put
    pub puts : put_value token y v ≡ some value_put
    pub stands : json_of es' opts node_put ≡ some value_put

  module _ (c : Node) (y : Json) (hy : json_of es' opts c ≡ some y) where
    object-Put :
        (s e : ℕ) (cs : Nodes) (token : Text) (ms : Members) (i : ℕ) (m : Node) (z : Cause)
        → members_of es opts cs ≡ some ms
        → looked_or (object_field_at es (node object s e cs) token) z ≡ to i m
        → Put (node object s e cs) i c token (members ms) y
    unfolding object_field_at object_field_node json_of
    object-Put s e cs token ms i m z h k =
        by_search (object_field_index-Searched es opts token cs ms h)
      where
        by_search :
            (r : Option (ℕ × Node)) × (object_field_index es token cs ≡ some r)
              × Searched es opts token cs ms r
            → Put (node object s e cs) i c token (members ms) y
        by_search (none, p, absent a) = cc (rw p at k)
        by_search (some (j, f), p, present {v = w} hc hv hx l) =
            let here : to j w ≡ to i m = rw (p, hv) at k in
            let same : j ≡ i = cc here in
            record {
              node_put = node object s e (set_child cs i (with_value f c));
              value_put = members (put_member ms token y);
              sets = rw (← same, hc) refl;
              puts = refl;
              stands =
                  rw (← same, members_of-put_member es es' opts keeps c y hy cs ms token j f h p)
                    refl;
            }

    array-Put :
        (s e : ℕ) (cs : Nodes) (token : Text) (vs : Items) (i : ℕ) (m : Node) (a : ArrayIndex)
        → items_of es opts cs ≡ some vs
        → index_value a ≡ index_of token
        → element_at_token (node array s e cs) a ≡ to i m
        → Put (node array s e cs) i c token (items vs) y
    unfolding array_value_at json_of
    array-Put s e cs token vs i m invalid_append h q k = cc k
    array-Put s e cs token vs i m invalid_path_segment h q k = cc k
    array-Put s e cs token vs i m (index j) h q k = elim (nth-child es opts cs vs j h) [
      | inl (_, b) ↦ let out : ltb j (count cs) ≡ false = ground arith in cc (rw out at k)
      | inr (f, w, x, h1, h2, hv, h3, h4, h5) ↦
          let inside : ltb j (count cs) ≡ true = ground arith in
          let here : to j w ≡ to i m = rw (inside, h1, h2) at k in
          let same : j ≡ i = cc here in
          record {
            node_put = node array s e (set_child cs i (with_value f c));
            value_put = items (put_item vs i y);
            sets = rw (← same, h1) refl;
            puts = rw (← q, same) refl;
            stands = rw (← same, items_of-put_item es es' opts keeps c y hy cs vs j f h h1) refl;
          }
    ]

    pointer_token-Put :
        (n : Node) (v : Json) (token : Text) (i : ℕ) (m : Node)
        → json_of es opts n ≡ some v
        → pointer_token es false n token ≡ to i m
        → Put n i c token v y
    unfolding pointer_token
    pointer_token-Put n v token i m h k = by_kind n v (json_of-Kind es opts n v h) k
      where
        by_kind :
            (n : Node) (v : Json)
            → Kind es opts n v
            → pointer_token es false n token ≡ to i m
            → Put n i c token v y
        by_kind _ v (an_object {s = s} {e = e} {cs = cs} ms hm q) k =
            rw q (object-Put s e cs token ms i m _ hm k)
        by_kind _ v (an_array {s = s} {e = e} {cs = cs} vs hm q) k = rw q (
            array-Put s e cs token vs i m (pointer_array_index token false) hm
              (pointer_array_index-index_of token) k)
        by_kind _ v (a_scalar o a _) k = cc (rw (o, a) at k)

  -- what a walk that finds a node says of the value, and of a receiver in which that node is changed
  pub record PutAll (n : Node) (is : List ℕ) (m : Node) (tokens : List Text) (v : Json)
      : Type 0 where
    pub chosen : Json
    pub selects : select_all select tokens v ≡ some chosen
    pub here : json_of es opts m ≡ some chosen
    pub change :
        (c : Node) (y : Json)
        → json_of es' opts c ≡ some y
        → (n' : Node) × (z : Json) × (set_at n is c ≡ some n')
          × (put_all tokens y v ≡ some z)
          × (json_of es' opts n' ≡ some z)

  below_inv :
      (i : ℕ) (r : Reached) (is : List ℕ) (m : Node)
      → below i r ≡ found is m
      → (js : List ℕ) × (r ≡ found js m) × (i ∷ js ≡ is)
  below_inv i (found js n) is m h = let q : n ≡ m = cc h in (js, ap (found js) q, cc h)
  below_inv i (lost e) is m h = cc h
  below_inv i crashed is m h = cc h

  pub walk-PutAll :
      (op : Op) (k : ℕ) (tokens : List Text) (n : Node) (v : Json) (is : List ℕ) (m : Node)
      → json_of es opts n ≡ some v
      → walk (pointer_token es false) op k tokens n ≡ found is m
      → PutAll n is m tokens v
  unfolding walk
  walk-PutAll op k [] n v is m h w =
      let none_left : [] ≡ is = cc w in
      let same : n ≡ m = cc w in
      record {
        chosen = v;
        selects = refl;
        here = rw (← same) h;
        change = λ c y hy. (c, y, rw (← none_left) refl, refl, hy);
      }
  walk-PutAll op k (t ∷ ts) n v is m h w =
      by_step (pointer_token es false n t) refl (pointer_token-StepOk es opts n v t h)
        (λ m1 x js hx w1. walk-PutAll op (k + 1) ts m1 x js m hx w1) w
    where
      by_step :
          (r : Stepped)
          → pointer_token es false n t ≡ r
          → StepOk es opts n (select t v) r
          → ((m1 : Node) (x : Json) (js : List ℕ)
              → json_of es opts m1 ≡ some x
              → walk (pointer_token es false) op (k + 1) ts m1 ≡ found js m
              → PutAll m1 js m ts x)
          → go_on op k r (walk (pointer_token es false) op (k + 1) ts) ≡ found is m
          → PutAll n is m (t ∷ ts) v
      by_step (refused z) q ok again w = cc w
      by_step _ q (stepped {i = i} {m = m1} {x = x} sel hx vc) again w =
          let (js, w1, qi) = below_inv i (walk (pointer_token es false) op (k + 1) ts m1) is m w in
          let rest = again m1 x js hx w1 in
          record {
            chosen = rest.chosen;
            selects = rw (sel, rest.selects) refl;
            here = rest.here;
            change = λ c y hy.
                let (c1, z1, hs, hp, hj) = rest.change c y hy in
                let p = pointer_token-Put c1 z1 hj n v t i m1 h q in
                (p.node_put, p.value_put, rw (← qi, vc, hs) p.sets, rw (sel, hp) p.puts, p.stands);
          }
