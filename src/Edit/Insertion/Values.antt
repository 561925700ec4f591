-- ===== src/Edit/Insertion/Values.antt =====
-- json/meta.go: what `InsertArrayValue` and `InsertObjectField` are for the values that nodes stand for.
use roundtrip.Base.{
  ℕ, ◌+◌, ◌<◌, ◌≤◌, ◌≡◌, refl, ap, sym, ◌∙◌, subst, inl, inr, List, true, false, some, ◌==◌, length,
  Bool-cases, ltb, arith,
}
use roundtrip.Decoder.{
  Node, node, Nodes, start_of, end_of, array_element_node, ParseErrorKind, Result, ok, parse_error,
  panic, out_of_fuel,
}
use roundtrip.Edit.Insertion.Lists.{insert_child_at-Carried}
use roundtrip.Edit.Replace.{Older}
use roundtrip.Edit.{
  done, is_array, is_object, with_children, elems_of, element_of, anchored, Edited, failed,
  when_valid, children, array_index_out_of_range, invalid_value, insert_array_value_node,
}
use roundtrip.Edit.Insertion.Elements.{
  ElementResult, not_array, beyond, element_refused, element_inserted, Refused,
  insert_array_value_node-ElementResult,
}
use roundtrip.Chars.{Unicode, IsUnicode}
use roundtrip.Document.{Meta}
use roundtrip.Json.Copies.{json_of-clone_node}
use roundtrip.Json.Insertion.{insert_item, size, items_count, items_of-insert_child}
use roundtrip.Json.Frames.{Keeps, items_of-Keeps}
use roundtrip.Json.Views.{Kind, an_object, an_array, a_scalar, json_of-Kind}
use roundtrip.Json.{Json, Items, Members, items, members, json_of, items_of, members_of}
use roundtrip.Linked.Segments.{Distinct}
use roundtrip.Syntax.{SyntaxOptions}
use roundtrip.Token.{object, array, Token}
use roundtrip.TokenList.Lookups.{
  Newer, Newer-append, copies-Newer, value_at-left, value_at-copies, value_at-inside,
}
use roundtrip.TokenList.Ranges.{Range, cut, copy_of}
use roundtrip.TokenList.Ranges.Cuts.{cut-Cuts}
use roundtrip.TokenList.{Elem, TokenList, value_at}
use roundtrip.Tree.Copies.{on_some_inv, copy_of_bound, clone-Cloned}
use roundtrip.Tree.{Handle, clone, cloned, clone_node, children_of, type_of, count}
use roundtrip.Tree.Clones.{Within, clone_total}

-- A clone stands for the value of the node wherever its tokens are found.
pub json_of-clone :
    (es es' : List Elem) (opts : SyntaxOptions) (fresh : ℕ) (n m : Node) (src : TokenList)
    (r : Range) (x : Json)
    → cut es (start_of n) (end_of n) ≡ some r
    → Distinct es
    → clone fresh es n ≡ some (m, src)
    → ((j : ℕ) (t : Token)
        → value_at src.elems j ≡ some t
        → j < src.fresh
        → value_at es' j ≡ some t)
    → json_of es opts n ≡ some x
    → json_of es' opts m ≡ some x
unfolding clone
json_of-clone es es' opts fresh n m src r x cr d h holds hx =
    let c = clone-Cloned fresh es n m src r cr h in
    let parts = (cut-Cuts es (start_of n) (end_of n) r cr).parts in
    let hc : cloned n fresh r ≡ some (m, src) = rw cr at h in
    let (m', hm, ht) = on_some_inv (clone_node (copy_of r.inside fresh) n) _ (m, src) hc in
    let q : m' ≡ m = cc ht in
    json_of-clone_node (copy_of r.inside fresh) es es' opts
      (λ i j t hj hv.
        let inside =
          value_at-inside r.left r.inside r.right fresh i j t (subst Distinct parts d) hj
            (subst (λ l. value_at l i ≡ some t) parts hv) in
        let (here, _) = value_at-copies r.inside fresh i j t hj inside in
        let (_, bound) = copy_of_bound r.inside fresh i j hj in
        let last : src.fresh ≡ fresh + length r.inside = c.next in
        holds j t (subst (λ l. value_at l j ≡ some t) (sym c.elems) here) (omega arith))
      n m x (hm ∙ ap (λ z. some z) q) hx

items_of_array :
    (es : List Elem) (opts : SyntaxOptions) (n : Node) (vs : Items)
    → json_of es opts n ≡ some (items vs)
    → (is_array (type_of n) ≡ true) × (items_of es opts (children_of n) ≡ some vs)
items_of_array es opts n vs h = by_kind n (json_of-Kind es opts n (items vs) h)
  where
    by_kind :
        (n : Node)
        → Kind es opts n (items vs)
        → (is_array (type_of n) ≡ true) × (items_of es opts (children_of n) ≡ some vs)
    by_kind _ (an_object ms hm q) = cc q
    by_kind _ (an_array vs' hm q) = let same : vs ≡ vs' = cc q in (refl, rw same hm)
    by_kind _ (a_scalar _ _ c) = cc c

pub members_of_object :
    (es : List Elem) (opts : SyntaxOptions) (n : Node) (ms : Members)
    → json_of es opts n ≡ some (members ms)
    → (is_object (type_of n) ≡ true) × (members_of es opts (children_of n) ≡ some ms)
members_of_object es opts n ms h = by_kind n (json_of-Kind es opts n (members ms) h)
  where
    by_kind :
        (n : Node)
        → Kind es opts n (members ms)
        → (is_object (type_of n) ≡ true) × (members_of es opts (children_of n) ≡ some ms)
    by_kind _ (an_object ms' hm q) = let same : ms ≡ ms' = cc q in (refl, rw same hm)
    by_kind _ (an_array vs hm q) = cc q
    by_kind _ (a_scalar _ _ c) = cc c

json_of_array :
    (es : List Elem) (opts : SyntaxOptions) (n : Node) (cs : Nodes) (vs : Items)
    → is_array (type_of n) ≡ true
    → items_of es opts cs ≡ some vs
    → json_of es opts (with_children n cs) ≡ some (items vs)
unfolding json_of
json_of_array es opts (node array s e _) cs vs a h = rw h refl
json_of_array es opts _ cs vs a h = cc a

pub json_of_object :
    (es : List Elem) (opts : SyntaxOptions) (n : Node) (cs : Nodes) (ms : Members)
    → is_object (type_of n) ≡ true
    → members_of es opts cs ≡ some ms
    → json_of es opts (with_children n cs) ≡ some (members ms)
unfolding json_of
json_of_object es opts (node object s e _) cs ms a h = rw h refl
json_of_object es opts _ cs ms a h = cc a

module _ (make : ℕ → ℕ → Node) (ts : TokenList) (k : ℕ) where
  pub anchored-Newer : Newer ts.elems k → k ≤ ts.fresh → Newer (anchored make ts).1.elems k
  anchored-Newer h l = (l, Newer-append ts.elems _ k h (omega arith, tt))

  pub anchored-holds :
      (j : ℕ) (t : Token)
      → value_at ts.elems j ≡ some t
      → j < ts.fresh
      → value_at (anchored make ts).1.elems j ≡ some t
  unfolding value_at
  anchored-holds j t h l =
      let other : (ts.fresh == j) ≡ false = ground arith in
      rw other (value_at-left ts.elems _ j t h)

module _ (n value : Handle) (opts : SyntaxOptions) (v : Range) (x : Json)
    (cv : cut (elems_of value) (start_of value.node) (end_of value.node) ≡ some v)
    (w : Within v.inside value.node) (dv : Distinct (elems_of value))
    (hx : json_of (elems_of value) opts value.node ≡ some x) (wn : Within (elems_of n) n.node)
    (older : Older (elems_of n) n.owner.tokens.fresh) where
  -- the tokens of the child and the values of the clone
  element_of-value :
      (i : ℕ) (vs : Items) (ts : TokenList) (m : Node)
      → json_of (elems_of n) opts n.node ≡ some (items vs)
      → element_of n i (clone n.owner.tokens.fresh (elems_of value) value.node) ≡ done ts m
      → Keeps (elems_of n) ts.elems × (json_of ts.elems opts m ≡ some (items (insert_item vs i x)))
  unfolding element_of
  element_of-value i vs ts m hn h =
      let fresh = n.owner.tokens.fresh in
      let (k, src, hk) = clone_total fresh (elems_of value) value.node v cv w in
      let (a, hs) = items_of_array (elems_of n) opts n.node vs hn in
      let c = clone-Cloned fresh (elems_of value) value.node k src v cv hk in
      let lower : fresh ≤ src.fresh =
        let q : src.fresh ≡ fresh + length v.inside = c.next in omega arith in
      let new = anchored (array_element_node k) src in
      let newer : Newer src.elems fresh =
        subst (λ l. Newer l fresh) (sym c.elems) (copies-Newer v.inside fresh) in
      let carried =
        insert_child_at-Carried n i new.0 new.1 ts m fresh older
          (anchored-Newer (array_element_node k) src fresh newer lower) (omega arith)
          (rw hk at h) in
      let first =
        json_of-clone (elems_of value) ts.elems opts fresh value.node k src v x cv dv hk
          (λ j t hj l.
            carried.holds j t (anchored-holds (array_element_node k) src fresh j t hj l)
              (omega arith))
          hx in
      let old =
        items_of-Keeps (elems_of n) ts.elems opts carried.keeps (children_of n.node) vs hs in
      (
        carried.keeps,
        rw (← carried.tree) (
            json_of_array ts.elems opts n.node _ _ a
              (items_of-insert_child ts.elems opts k x first (children_of n.node) vs i _ _ old)),
      )

pub when_valid-done :
    (u : Unicode) (rune_len : ℕ → ℕ) (r : Result Meta) (k : Edited) (ts : TokenList) (m : Node)
    → when_valid u rune_len r k ≡ done ts m
    → k ≡ done ts m
when_valid-done u rune_len (ok _ _) k ts m h = h
when_valid-done u rune_len (parse_error _ _ _) k ts m h = cc h
when_valid-done u rune_len panic k ts m h = cc h
when_valid-done u rune_len out_of_fuel k ts m h = cc h

insert_array_value_node_inv :
    (u : Unicode) (rune_len : ℕ → ℕ) (n value : Handle) (i : ℕ) (ts : TokenList) (m : Node)
    → insert_array_value_node u rune_len n i value ≡ done ts m
    → (element_of n i (clone n.owner.tokens.fresh (elems_of value) value.node) ≡ done ts m)
      × (i ≤ count (children n))
unfolding insert_array_value_node
insert_array_value_node_inv u rune_len n value i ts m h =
    elim (Bool-cases (is_array (type_of n.node))) [
      | inr o ↦ cc (rw o at h)
      | inl a ↦ elim (Bool-cases (ltb (count (children n)) i)) [
        | inl b ↦ cc (rw (a, b) at h)
        | inr l ↦ let k = when_valid-done u rune_len _ _ ts m (rw (a, l) at h) in (k, ground arith)
      ]
    ]

-- what `InsertArrayValue` is for an array that stands for items
pub data ItemResult (u : Unicode) (rune_len : ℕ → ℕ) (n value : Handle) (opts : SyntaxOptions)
    (v : Range) (x : Json) (i : ℕ) (vs : Items) : Edited → Type 0 where
  item_inserted :
      {ts : TokenList} {m : Node}
      → i ≤ size vs
      → Keeps (elems_of n) ts.elems
      → json_of ts.elems opts m ≡ some (items (insert_item vs i x))
      → ItemResult u rune_len n value opts v x i vs (done ts m)
  item_beyond :
      size vs < i → ItemResult u rune_len n value opts v x i vs (failed array_index_out_of_range)
  item_refused :
      {e : ParseErrorKind} {t : Token}
      → Refused u rune_len n value v e t
      → ItemResult u rune_len n value opts v x i vs (failed (invalid_value e t))

module _ (u : Unicode) (law : IsUnicode u) (rune_len : ℕ → ℕ) (n value : Handle)
    (opts : SyntaxOptions) (v : Range) (x : Json)
    (cv : cut (elems_of value) (start_of value.node) (end_of value.node) ≡ some v)
    (w : Within v.inside value.node) (dv : Distinct (elems_of value))
    (hx : json_of (elems_of value) opts value.node ≡ some x) (wn : Within (elems_of n) n.node)
    (older : Older (elems_of n) n.owner.tokens.fresh) where
  -- The tables of runes are as documented on ASCII. The ends of the value are in order in its token list,
  -- whose elements are distinct, and its descendants start and end in its range; the node and its
  -- descendants start and end in the document's token list, whose addresses are in use. The node stands
  -- for an array of items, the value for `x`. `InsertArrayValue` of the value returns an error for an index
  -- beyond the number of items, and for a value whose source text is refused under the document's syntax;
  -- else the elements of the document keep their values in the new token list, in which the node stands
  -- for the items with `x` at the index.
  pub insert_array_value_node-ItemResult :
      (i : ℕ) (vs : Items)
      → json_of (elems_of n) opts n.node ≡ some (items vs)
      → ItemResult u rune_len n value opts v x i vs (insert_array_value_node u rune_len n i value)
  insert_array_value_node-ItemResult i vs hn =
      by_result (insert_array_value_node u rune_len n i value) refl
        (insert_array_value_node-ElementResult n value v cv w wn u law rune_len i)
    where
      by_result :
          (r : Edited)
          → insert_array_value_node u rune_len n i value ≡ r
          → ElementResult u rune_len n value v i r
          → ItemResult u rune_len n value opts v x i vs r
      by_result _ q (not_array o) =
          let (a, _) = items_of_array (elems_of n) opts n.node vs hn in cc (a, o)
      by_result _ q (beyond a l) =
          let (_, hs) = items_of_array (elems_of n) opts n.node vs hn in
          let k = items_count (elems_of n) opts (children n) vs hs in item_beyond (rw (← k) l)
      by_result _ q (element_refused f) = item_refused f
      by_result _ q (element_inserted {m = m} {ts = ts} c) =
          let (_, hs) = items_of_array (elems_of n) opts n.node vs hn in
          let k = items_count (elems_of n) opts (children n) vs hs in
          let (h, le) = insert_array_value_node_inv u rune_len n value i ts m q in
          let (keeps, stands) =
            element_of-value n value opts v x cv w dv hx wn older i vs ts m hn h in
          item_inserted (rw (← k) le) keeps stands
