-- ===== src/Equality/Values.antt =====
-- json/patch.go: nodes are equal when the values that they stand for are.
use roundtrip.Equality.Shapes.{
  found_equal, json_equal_by, all_members, all_items, bytes-one, Shape, an_object, an_array,
  a_string, a_number, a_bool, a_null, json_of-Shape,
}
use roundtrip.Access.{object_field_at, object_field_node}
use roundtrip.Base.{
  ℕ, ◌≡◌, refl, ap, sym, ◌∙◌, Text, List, Bool, true, false, Bool-cases, inl, inr, ◌&&◌, ◌==◌,
  Option, none, some, arith,
}
use roundtrip.Decoder.{Node, node, Nodes, nil, cons}
use roundtrip.Equality.{
  json_numbers_equal, json_nodes_equal, fields_equal, elements_equal, and_then, by_looked,
}
use roundtrip.Json.Insertion.{size, width, items_count, members_count}
use roundtrip.Json.Views.{
  map_json_inv, word_at_inv, Searched, absent, present, object_field_index-Searched,
}
use roundtrip.Json.{
  Json, members, items, string, number, boolean, null_value, Items, none_left, item, Members, end,
  member, json_of, items_of, members_of, lookup, decode_string,
}
use roundtrip.Syntax.{SyntaxOptions}
use roundtrip.Token.{
  object, object_field, array, array_element, string_node, number_node, bool_node, null_node, Token,
}
use roundtrip.TokenList.{Elem, value_at}
use roundtrip.Tree.Copies.{on_some_inv}
use roundtrip.Tree.{bytes, count, child, field_name, object_field_index}

and_then-some :
    (o p : Option Bool) (b c : Bool) → o ≡ some b → p ≡ some c → and_then o p ≡ some (b && c)
and_then-some o p true c h k = rw (h, k) refl
and_then-some o p false c h k = rw h refl

module _ (ea eb : List Elem) (oa ob : SyntaxOptions) where
  abbrev SameAs : Node → Json → Type 0
  SameAs v x =
      (w : Node) (y : Json)
      → json_of eb ob w ≡ some y
      → json_nodes_equal ea eb oa ob v w ≡ some (json_equal_by json_numbers_equal x y)

  -- one field against the object in which its name is looked up
  field-SameAs :
      (s e : ℕ) (ds : Nodes) (name : Text) (ns : Members) (v : Node) (x : Json) (rest : Option Bool)
      (r : Bool)
      → members_of eb ob ds ≡ some ns
      → SameAs v x
      → rest ≡ some r
      → by_looked
          (object_field_at eb (node object s e ds) name)
          (λ w. json_nodes_equal ea eb oa ob v w)
          rest
        ≡ some (found_equal (lookup ns name) (λ w. json_equal_by json_numbers_equal x w) && r)
  unfolding object_field_at object_field_node
  field-SameAs s e ds name ns v x rest r h agrees hr =
      by_search (object_field_index-Searched eb ob name ds ns h)
    where
      by_search :
          (f : Option (ℕ × Node)) × (object_field_index eb name ds ≡ some f)
            × Searched eb ob name ds ns f
          → by_looked
              (object_field_at eb (node object s e ds) name)
              (λ w. json_nodes_equal ea eb oa ob v w)
              rest
            ≡ some (found_equal (lookup ns name) (λ w. json_equal_by json_numbers_equal x w) && r)
      by_search (none, p, absent a) = rw (p, a) refl
      by_search (some (i, f), p, present {v = w} {x = y} hc hv hy l) =
          rw (p, hv, l)
            (and_then-some _ rest (json_equal_by json_numbers_equal x y) r (agrees w y hy) hr)

  object_agrees :
      (s e : ℕ) (cs : Nodes) (ms : Members) (b : Node) (y : Json)
      → count cs ≡ width ms
      → Shape eb ob b y
      → ((s' e' : ℕ) (ds : Nodes) (ns : Members)
          → members_of eb ob ds ≡ some ns
          → fields_equal ea eb oa ob cs (node object s' e' ds)
            ≡ some (all_members json_numbers_equal ms ns))
      → json_nodes_equal ea eb oa ob (node object s e cs) b
        ≡ some (json_equal_by json_numbers_equal (members ms) y)
  unfolding json_nodes_equal json_equal_by
  object_agrees s e cs ms _ y k (an_object {s = s'} {e = e'} {cs = ds} ns h q) fields =
      rw (q, k, members_count eb ob ds ns h, fields s' e' ds ns h)
        (elim (Bool-cases (width ms == width ns)) [ inl w ↦ rw w refl | inr w ↦ rw w refl ])
  object_agrees s e cs ms _ y k (an_array _ _ q) fields = rw q refl
  object_agrees s e cs ms _ y k (a_string _ _ _ _ q) fields = rw q refl
  object_agrees s e cs ms _ y k (a_number _ _ q) fields = rw q refl
  object_agrees s e cs ms _ y k (a_bool _ _ q) fields = rw q refl
  object_agrees s e cs ms _ y k (a_null _ _ q) fields = rw q refl

  array_agrees :
      (s e : ℕ) (cs : Nodes) (vs : Items) (b : Node) (y : Json)
      → count cs ≡ size vs
      → Shape eb ob b y
      → ((ds : Nodes) (ws : Items)
          → items_of eb ob ds ≡ some ws
          → size vs ≡ size ws
          → elements_equal ea eb oa ob cs ds ≡ some (all_items json_numbers_equal vs ws))
      → json_nodes_equal ea eb oa ob (node array s e cs) b
        ≡ some (json_equal_by json_numbers_equal (items vs) y)
  unfolding json_nodes_equal json_equal_by
  array_agrees s e cs vs _ y k (an_array {cs = ds} ws h q) elements =
      rw (q, k, items_count eb ob ds ws h)
        (elim (Bool-cases (size vs == size ws)) [
          | inl w ↦
              let same : size vs ≡ size ws = ground arith in rw (w, elements ds ws h same) refl
          | inr w ↦ rw w refl
        ])
  array_agrees s e cs vs _ y k (an_object _ _ q) elements = rw q refl
  array_agrees s e cs vs _ y k (a_string _ _ _ _ q) elements = rw q refl
  array_agrees s e cs vs _ y k (a_number _ _ q) elements = rw q refl
  array_agrees s e cs vs _ y k (a_bool _ _ q) elements = rw q refl
  array_agrees s e cs vs _ y k (a_null _ _ q) elements = rw q refl

  string_agrees :
      (s e : ℕ) (cs : Nodes) (t : Token) (x : Text) (b : Node) (y : Json)
      → value_at ea s ≡ some t
      → decode_string t oa ≡ some x
      → Shape eb ob b y
      → json_nodes_equal ea eb oa ob (node string_node s e cs) b
        ≡ some (json_equal_by json_numbers_equal (string x) y)
  unfolding json_nodes_equal json_equal_by
  string_agrees s e cs t x _ y ht hx (a_string _ _ hb hd q) = rw (q, ht, hx, hb, hd) refl
  string_agrees s e cs t x _ y ht hx (an_object _ _ q) = rw q refl
  string_agrees s e cs t x _ y ht hx (an_array _ _ q) = rw q refl
  string_agrees s e cs t x _ y ht hx (a_number _ _ q) = rw q refl
  string_agrees s e cs t x _ y ht hx (a_bool _ _ q) = rw q refl
  string_agrees s e cs t x _ y ht hx (a_null _ _ q) = rw q refl

  number_agrees :
      (s e : ℕ) (cs : Nodes) (t : Token) (b : Node) (y : Json)
      → value_at ea s ≡ some t
      → Shape eb ob b y
      → json_nodes_equal ea eb oa ob (node number_node s e cs) b
        ≡ some (json_equal_by json_numbers_equal (number t.literal) y)
  unfolding json_nodes_equal json_equal_by
  number_agrees s e cs t _ y ht (a_number _ hb q) = rw (q, ht, hb) refl
  number_agrees s e cs t _ y ht (an_object _ _ q) = rw q refl
  number_agrees s e cs t _ y ht (an_array _ _ q) = rw q refl
  number_agrees s e cs t _ y ht (a_string _ _ _ _ q) = rw q refl
  number_agrees s e cs t _ y ht (a_bool _ _ q) = rw q refl
  number_agrees s e cs t _ y ht (a_null _ _ q) = rw q refl

  bool_agrees :
      (s e : ℕ) (cs : Nodes) (x : Text) (b : Node) (y : Json)
      → bytes ea (node bool_node s e cs) ≡ x
      → Shape eb ob b y
      → json_nodes_equal ea eb oa ob (node bool_node s e cs) b
        ≡ some (json_equal_by json_numbers_equal (boolean x) y)
  unfolding json_nodes_equal json_equal_by
  bool_agrees s e cs x _ y hx (a_bool _ hb q) = rw (q, hx, hb) refl
  bool_agrees s e cs x _ y hx (an_object _ _ q) = rw q refl
  bool_agrees s e cs x _ y hx (an_array _ _ q) = rw q refl
  bool_agrees s e cs x _ y hx (a_string _ _ _ _ q) = rw q refl
  bool_agrees s e cs x _ y hx (a_number _ _ q) = rw q refl
  bool_agrees s e cs x _ y hx (a_null _ _ q) = rw q refl

  null_agrees :
      (s e : ℕ) (cs : Nodes) (x : Text) (b : Node) (y : Json)
      → bytes ea (node null_node s e cs) ≡ x
      → Shape eb ob b y
      → json_nodes_equal ea eb oa ob (node null_node s e cs) b
        ≡ some (json_equal_by json_numbers_equal (null_value x) y)
  unfolding json_nodes_equal json_equal_by
  null_agrees s e cs x _ y hx (a_null _ hb q) = rw (q, hx, hb) refl
  null_agrees s e cs x _ y hx (an_object _ _ q) = rw q refl
  null_agrees s e cs x _ y hx (an_array _ _ q) = rw q refl
  null_agrees s e cs x _ y hx (a_string _ _ _ _ q) = rw q refl
  null_agrees s e cs x _ y hx (a_number _ _ q) = rw q refl
  null_agrees s e cs x _ y hx (a_bool _ _ q) = rw q refl

  mutual
    unfolding json_of members_of items_of fields_equal elements_equal all_members all_items child

    -- Both nodes stand for values. `jsonNodesEqual` does not panic and answers whether the values are equal:
    -- objects with as many members, each of the first with an equal one of its name in the second; arrays
    -- with equal items in order; strings by the text that they are decoded to; numbers as `jsonNumbersEqual`
    -- compares them; the other scalars by their source text.
    pub json_nodes_equal-json_equal_by :
        (a b : Node) (x y : Json)
        → json_of ea oa a ≡ some x
        → json_of eb ob b ≡ some y
        → json_nodes_equal ea eb oa ob a b ≡ some (json_equal_by json_numbers_equal x y)
    json_nodes_equal-json_equal_by (node object s e cs) b x y ha hb =
        let (ms, hm, q) = map_json_inv members (members_of ea oa cs) x ha in
        let same =
          object_agrees s e cs ms b y (members_count ea oa cs ms hm) (json_of-Shape eb ob b y hb)
            (λ s' e' ds ns h. fields_agree cs ms s' e' ds ns hm h) in
        rw (← q) same
    json_nodes_equal-json_equal_by (node array s e cs) b x y ha hb =
        let (vs, hm, q) = map_json_inv items (items_of ea oa cs) x ha in
        let same =
          array_agrees s e cs vs b y (items_count ea oa cs vs hm) (json_of-Shape eb ob b y hb)
            (λ ds ws h k. elements_agree cs ds vs ws hm h k) in
        rw (← q) same
    json_nodes_equal-json_equal_by (node string_node s e cs) b x y ha hb =
        let (t, ht, h1) = on_some_inv (value_at ea s) _ x ha in
        let (z, hz, q) = map_json_inv string (decode_string t oa) x h1 in
        rw (← q) (string_agrees s e cs t z b y ht hz (json_of-Shape eb ob b y hb))
    json_nodes_equal-json_equal_by (node number_node s e cs) b x y ha hb =
        let (t, ht, h1) = on_some_inv (value_at ea s) _ x ha in
        let q : number t.literal ≡ x = cc h1 in
        rw (← q) (number_agrees s e cs t b y ht (json_of-Shape eb ob b y hb))
    json_nodes_equal-json_equal_by (node bool_node s e cs) b x y ha hb =
        let (t, q, ht, na, k) = word_at_inv ea s e boolean x ha in
        rw k (
          bool_agrees s e cs t.literal b y (bytes-one ea bool_node s e cs t q ht na)
            (json_of-Shape eb ob b y hb))
    json_nodes_equal-json_equal_by (node null_node s e cs) b x y ha hb =
        let (t, q, ht, na, k) = word_at_inv ea s e null_value x ha in
        rw k (
          null_agrees s e cs t.literal b y (bytes-one ea null_node s e cs t q ht na)
            (json_of-Shape eb ob b y hb))
    json_nodes_equal-json_equal_by _ b x y ha hb = cc ha

    fields_agree :
        (cs : Nodes) (ms : Members) (s e : ℕ) (ds : Nodes) (ns : Members)
        → members_of ea oa cs ≡ some ms
        → members_of eb ob ds ≡ some ns
        → fields_equal ea eb oa ob cs (node object s e ds)
          ≡ some (all_members json_numbers_equal ms ns)
    fields_agree nil ms s e ds ns ha hb = let q : end ≡ ms = cc ha in rw (← q) refl
    fields_agree (cons (node object_field s' e' (cons k (cons v nil))) fs) ms s e ds ns ha hb =
        let (name, hn, h1) =
          on_some_inv (field_name ea (node object_field s' e' (cons k (cons v nil)))) _ ms ha in
        let (x, hx, h2) = on_some_inv (json_of ea oa v) _ ms h1 in
        let (rest, hr, q) = map_json_inv (member name x) (members_of ea oa fs) ms h2 in
        let more = fields_agree fs rest s e ds ns hr hb in
        rw (← q, hn)
          (field-SameAs s e ds name ns v x _ (all_members json_numbers_equal rest ns) hb
            (λ w y hy. json_nodes_equal-json_equal_by v w x y hx hy) more)
    fields_agree _ ms s e ds ns ha hb = cc ha

    elements_agree :
        (cs ds : Nodes) (vs ws : Items)
        → items_of ea oa cs ≡ some vs
        → items_of eb ob ds ≡ some ws
        → size vs ≡ size ws
        → elements_equal ea eb oa ob cs ds ≡ some (all_items json_numbers_equal vs ws)
    elements_agree nil ds vs ws ha hb k = let q : none_left ≡ vs = cc ha in rw (← q) refl
    elements_agree (cons (node array_element s e (cons v nil)) es) nil vs ws ha hb k =
        let (x, hx, h1) = on_some_inv (json_of ea oa v) _ vs ha in
        let (rest, hr, q) = map_json_inv (item x) (items_of ea oa es) vs h1 in
        let q' : none_left ≡ ws = cc hb in
        let m : size (item x rest) ≡ size none_left = ap size q ∙ k ∙ ap size (sym q') in
        absurd (omega arith)
    elements_agree (cons (node array_element s e (cons v nil)) es)
          (cons (node array_element s' e' (cons w nil)) ds) vs ws ha hb k =
        let (x, hx, h1) = on_some_inv (json_of ea oa v) _ vs ha in
        let (rest, hr, q) = map_json_inv (item x) (items_of ea oa es) vs h1 in
        let (y, hy, h2) = on_some_inv (json_of eb ob w) _ ws hb in
        let (rest', hr', q') = map_json_inv (item y) (items_of eb ob ds) ws h2 in
        let m : size (item x rest) ≡ size (item y rest') = ap size q ∙ k ∙ ap size (sym q') in
        let first = json_nodes_equal-json_equal_by v w x y hx hy in
        let more = elements_agree es ds rest rest' hr hr' (omega arith) in
        rw (← q, ← q')
          (and_then-some _ _ (json_equal_by json_numbers_equal x y)
            (all_items json_numbers_equal rest rest') first more)
    elements_agree (cons (node array_element s e (cons v nil)) es) (cons c ds) vs ws ha hb k = cc hb
    elements_agree _ ds vs ws ha hb k = cc ha
