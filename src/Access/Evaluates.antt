-- ===== src/Access/Evaluates.antt =====
-- json/path.go: a walk reaches the node that stands for the value that the path selects.
use roundtrip.Access.{
  value_child, at_segment, object_field_node, object_field_at, array_value_at, Segment, field,
  element, below_zero, append, other, Cause, Stepped, to, refused, looked_or, element_at_token,
  pointer_token,
}
use roundtrip.Base.{ℕ, ◌≡◌, refl, inl, inr, Text, List, true, false, Option, none, some, ltb, arith}
use roundtrip.Decoder.{Node, node, Nodes}
use roundtrip.Json.{
  Json, members, items, string, number, boolean, null_value, Items, Members, json_of, items_of,
  members_of, lookup, nth, select, is_container,
}
use roundtrip.Json.Views.{
  Searched, absent, present, object_field_index-Searched, nth-child, Kind, an_object, an_array,
  a_scalar, json_of-Kind,
}
use roundtrip.Tree.{on_some}
use roundtrip.Pointer.Positional.{index_value, pointer_array_index-index_of}
use roundtrip.Pointer.{ArrayIndex, index, invalid_append, invalid_path_segment, pointer_array_index}
use roundtrip.Syntax.{SyntaxOptions}
use roundtrip.Token.{object, array}
use roundtrip.TokenList.{Elem}
use roundtrip.Tree.{object_field_index, count}

-- what a segment of a path selects in a value
abbrev pub select_segment : Segment → Json → Option Json
select_segment (field name) (members ms) = lookup ms name
select_segment (element i) (items vs) = nth vs i
select_segment _ _ = none

module _ (es : List Elem) (opts : SyntaxOptions) where
  -- A step goes to the child that stands for the selected value, or there is none.
  pub data StepOk (n : Node) (chosen : Option Json) : Stepped → Type 0 where
    stepped :
        {i : ℕ} {m : Node} {x : Json}
        → chosen ≡ some x
        → json_of es opts m ≡ some x
        → value_child n i ≡ some m
        → StepOk n chosen (to i m)
    stuck : {c : Cause} → chosen ≡ none → StepOk n chosen (refused c)

  field_step :
      (n : Node) (s e : ℕ) (cs : Nodes) (name : Text) (ms : Members) (c : Cause)
      → n ≡ node object s e cs
      → members_of es opts cs ≡ some ms
      → StepOk n (lookup ms name) (looked_or (object_field_at es n name) c)
  unfolding object_field_at object_field_node
  field_step n s e cs name ms c q h =
      rw q (by_search (object_field_index-Searched es opts name cs ms h))
    where
      by_search :
          (r : Option (ℕ × Node)) × (object_field_index es name cs ≡ some r)
            × Searched es opts name cs ms r
          → StepOk
              (node object s e cs)
              (lookup ms name)
              (looked_or (object_field_at es (node object s e cs) name) c)
      by_search (none, p, absent a) = rw p (stuck a)
      by_search (some (i, f), p, present hc hv hx l) = rw (p, hv) (stepped l hx (rw (hc, hv) refl))

  element_step :
      (n : Node) (s e : ℕ) (cs : Nodes) (i : ℕ) (vs : Items) (c : Cause)
      → n ≡ node array s e cs
      → items_of es opts cs ≡ some vs
      → StepOk n (nth vs i) (looked_or (array_value_at n i) c)
  unfolding array_value_at
  element_step n s e cs i vs c q h = rw q (elim (nth-child es opts cs vs i h) [
    | inl (a, b) ↦ let out : ltb i (count cs) ≡ false = ground arith in rw out (stuck a)
    | inr (f, v, x, h1, h2, hv, h3, h4, h5) ↦
        let inside : ltb i (count cs) ≡ true = ground arith in
        rw (inside, h1, h2) (stepped h4 h3 (rw (h1, hv) refl))
  ])

  select-scalar : (token : Text) (v : Json) → is_container v ≡ false → select token v ≡ none
  select-scalar token (string t) h = refl
  select-scalar token (number t) h = refl
  select-scalar token (boolean t) h = refl
  select-scalar token (null_value t) h = refl
  select-scalar token _ h = cc h

  select_segment-scalar :
      (s : Segment) (v : Json) → is_container v ≡ false → select_segment s v ≡ none
  select_segment-scalar (field name) (members ms) h = cc h
  select_segment-scalar (field name) _ h = refl
  select_segment-scalar (element i) (items vs) h = cc h
  select_segment-scalar (element i) _ h = refl
  select_segment-scalar below_zero _ h = refl
  select_segment-scalar append _ h = refl
  select_segment-scalar other _ h = refl

  pub pointer_token-StepOk :
      (n : Node) (v : Json) (token : Text)
      → json_of es opts n ≡ some v
      → StepOk n (select token v) (pointer_token es false n token)
  unfolding pointer_token
  pointer_token-StepOk n v token h = by_kind n v (json_of-Kind es opts n v h)
    where
      by_index :
          (s e : ℕ) (cs : Nodes) (vs : Items)
          → items_of es opts cs ≡ some vs
          → (a : ArrayIndex)
          → StepOk
              (node array s e cs)
              (on_some (index_value a) (nth vs))
              (element_at_token (node array s e cs) a)
      by_index s e cs vs h (index i) = element_step (node array s e cs) s e cs i vs _ refl h
      by_index s e cs vs h invalid_append = stuck refl
      by_index s e cs vs h invalid_path_segment = stuck refl

      by_kind :
          (n : Node) (v : Json)
          → Kind es opts n v
          → StepOk n (select token v) (pointer_token es false n token)
      by_kind _ v (an_object {s = s} {e = e} {cs = cs} ms hm q) =
          rw q (field_step (node object s e cs) s e cs token ms _ refl hm)
      by_kind _ v (an_array {s = s} {e = e} {cs = cs} vs hm q) =
          rw (q, ← pointer_array_index-index_of token)
            (by_index s e cs vs hm (pointer_array_index token false))
      by_kind _ v (a_scalar o a c) = rw (o, a) (stuck (select-scalar token v c))

  pub at_segment-StepOk :
      (n : Node) (v : Json) (s : Segment)
      → json_of es opts n ≡ some v
      → StepOk n (select_segment s v) (at_segment es n s)
  unfolding at_segment object_field_at object_field_node array_value_at
  at_segment-StepOk n v s h = by_kind n v s (json_of-Kind es opts n v h)
    where
      by_kind :
          (n : Node) (v : Json) (s : Segment)
          → Kind es opts n v
          → StepOk n (select_segment s v) (at_segment es n s)
      by_kind _ v below_zero _ = stuck refl
      by_kind _ v append _ = stuck refl
      by_kind _ v other _ = stuck refl
      by_kind _ v (field name) (an_object {s = s} {e = e} {cs = cs} ms hm q) =
          rw q (field_step (node object s e cs) s e cs name ms _ refl hm)
      by_kind _ v (field name) (an_array vs hm q) = rw q (stuck refl)
      by_kind _ v (field name) (a_scalar o a c) =
          rw o (stuck (select_segment-scalar (field name) v c))
      by_kind _ v (element i) (an_object ms hm q) = rw q (stuck refl)
      by_kind _ v (element i) (an_array {s = s} {e = e} {cs = cs} vs hm q) =
          rw q (element_step (node array s e cs) s e cs i vs _ refl hm)
      by_kind _ v (element i) (a_scalar o a c) =
          rw a (stuck (select_segment-scalar (element i) v c))
