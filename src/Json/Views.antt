-- ===== src/Json/Views.antt =====
-- The shape of a node that stands for a value, and the lookups in its children.
use roundtrip.Base.{
  ℕ, zero, suc, ◌<◌, ◌≤◌, ◌≡◌, refl, sym, ◌∙◌, ◌⊎◌, inl, inr, Text, List, false, ◌==◌, Bool-cases,
  Option, none, some, text_eq, arith,
}
use roundtrip.Access.{node_value}
use roundtrip.Decoder.{Node, node, Nodes, nil, cons}
use roundtrip.Edit.{is_object, is_array}
use roundtrip.Json.{
  is_container, Json, members, items, string, number, boolean, null_value, word_at, decode_string,
  Items, none_left, item, Members, end, member, map_json, json_of, items_of, members_of, lookup,
  nth,
}
use roundtrip.Syntax.{SyntaxOptions}
use roundtrip.Token.{
  NodeType, object, array, object_field, array_element, string_node, number_node, bool_node,
  null_node, Token, is_anchor,
}
use roundtrip.TokenList.{Elem, value_at}
use roundtrip.Tree.{count, child, field_name, object_field_index, array_element_value, further}
use roundtrip.Tree.Copies.{on_some_inv}

pub map_json_inv {ℓ κ} :
    {A : Type ℓ} {B : Type κ} (f : A → B) (o : Option A) (b : B)
    → map_json f o ≡ some b
    → (a : A) × (o ≡ some a) × (f a ≡ b)
map_json_inv f none b h = cc
map_json_inv f (some a) b h = (a, refl, cc h)

pub word_at_inv :
    (es : List Elem) (s e : ℕ) (make : Text → Json) (v : Json)
    → word_at es s e make ≡ some v
    → (t : Token) × (s ≡ e)
      × (value_at es s ≡ some t)
      × (is_anchor t.type ≡ false)
      × (v ≡ make t.literal)
word_at_inv es s e make v h = elim (Bool-cases (s == e)) [
  | inr n ↦ cc (rw n at h)
  | inl y ↦
      let (t, ht, h1) = on_some_inv (value_at es s) _ v (rw y at h) in
      elim (Bool-cases (is_anchor t.type)) [
        | inl a ↦ cc (rw a at h1)
        | inr m ↦
            let k : some (make t.literal) ≡ some v = rw m at h1 in (t, ground arith, ht, m, cc k)
      ]
]

-- what a field of an object is that has a name and a value
pub data FieldView (es : List Elem) (opts : SyntaxOptions) (ns : Nodes) (ms : Members)
    : Node → Type 0 where
  field_view :
      {s e : ℕ} {k v : Node} {name : Text} {x : Json} {rest : Members}
      → field_name es (node object_field s e (cons k (cons v nil))) ≡ some name
      → json_of es opts v ≡ some x
      → members_of es opts ns ≡ some rest
      → ms ≡ member name x rest
      → FieldView es opts ns ms (node object_field s e (cons k (cons v nil)))

pub members_of-FieldView :
    (es : List Elem) (opts : SyntaxOptions) (f : Node) (ns : Nodes) (ms : Members)
    → members_of es opts (cons f ns) ≡ some ms
    → FieldView es opts ns ms f
unfolding members_of
members_of-FieldView es opts (node object_field s e (cons k (cons v nil))) ns ms h =
    let (name, hn, h1) =
      on_some_inv (field_name es (node object_field s e (cons k (cons v nil)))) _ ms h in
    let (x, hx, h2) = on_some_inv (json_of es opts v) _ ms h1 in
    let (rest, hr, q) = map_json_inv (member name x) (members_of es opts ns) ms h2 in
    field_view hn hx hr (sym q)
members_of-FieldView es opts _ ns ms h = cc h

pub data ItemView (es : List Elem) (opts : SyntaxOptions) (ns : Nodes) (vs : Items)
    : Node → Type 0 where
  item_view :
      {s e : ℕ} {v : Node} {x : Json} {rest : Items}
      → json_of es opts v ≡ some x
      → items_of es opts ns ≡ some rest
      → vs ≡ item x rest
      → ItemView es opts ns vs (node array_element s e (cons v nil))

pub items_of-ItemView :
    (es : List Elem) (opts : SyntaxOptions) (f : Node) (ns : Nodes) (vs : Items)
    → items_of es opts (cons f ns) ≡ some vs
    → ItemView es opts ns vs f
unfolding items_of
items_of-ItemView es opts (node array_element s e (cons v nil)) ns vs h =
    let (x, hx, h1) = on_some_inv (json_of es opts v) _ vs h in
    let (rest, hr, q) = map_json_inv (item x) (items_of es opts ns) vs h1 in item_view hx hr (sym q)
items_of-ItemView es opts _ ns vs h = cc h

-- what the search for a name finds among fields that stand for members
pub data Searched (es : List Elem) (opts : SyntaxOptions) (name : Text) (cs : Nodes) (ms : Members)
    : Option (ℕ × Node) → Type 0 where
  absent : lookup ms name ≡ none → Searched es opts name cs ms none
  present :
      {i : ℕ} {f v : Node} {x : Json}
      → child cs i ≡ some f
      → node_value f ≡ some (some v)
      → json_of es opts v ≡ some x
      → lookup ms name ≡ some x
      → Searched es opts name cs ms (some (i, f))

Searched-further :
    {es : List Elem} {opts : SyntaxOptions} {name : Text} {ns : Nodes} {rest ms : Members}
    {r : Option (ℕ × Node)} (f : Node)
    → Searched es opts name ns rest r
    → lookup ms name ≡ lookup rest name
    → Searched es opts name (cons f ns) ms (further r)
unfolding child
Searched-further f (absent a) q = absent (q ∙ a)
Searched-further f (present c v x l) q = present c v x (q ∙ l)

pub object_field_index-Searched :
    (es : List Elem) (opts : SyntaxOptions) (name : Text) (cs : Nodes) (ms : Members)
    → members_of es opts cs ≡ some ms
    → (r : Option (ℕ × Node)) × (object_field_index es name cs ≡ some r)
      × Searched es opts name cs ms r
unfolding object_field_index members_of lookup child
object_field_index-Searched es opts name nil ms h =
    let q : end ≡ ms = cc h in (none, refl, absent (rw (← q) refl))
object_field_index-Searched es opts name (cons f ns) ms h =
    by_view f (members_of-FieldView es opts f ns ms h)
      (λ rest. object_field_index-Searched es opts name ns rest)
  where
    by_view :
        (f : Node)
        → FieldView es opts ns ms f
        → ((rest : Members)
            → members_of es opts ns ≡ some rest
            → (r : Option (ℕ × Node)) × (object_field_index es name ns ≡ some r)
              × Searched es opts name ns rest r)
        → (r : Option (ℕ × Node)) × (object_field_index es name (cons f ns) ≡ some r)
          × Searched es opts name (cons f ns) ms r
    by_view _ (field_view {k = k} {v = v} {name = key} {x = x} {rest = rest} hn hx hr q) again =
        elim (Bool-cases (text_eq key name)) [
          | inl y ↦ (some (0, _), rw (hn, y) refl, present refl refl hx (rw (q, y) refl))
          | inr n ↦
              let (r, p, found) = again rest hr in
              (further r, rw (hn, n, p) refl, Searched-further _ found (rw (q, n) refl))
        ]

-- what stands at an index of an array that stands for items
pub nth-child :
    (es : List Elem) (opts : SyntaxOptions) (cs : Nodes) (vs : Items) (i : ℕ)
    → items_of es opts cs ≡ some vs
    → ((nth vs i ≡ none) × (count cs ≤ i))
      ⊎ ((c v : Node) × (x : Json) × (child cs i ≡ some c)
          × (array_element_value c ≡ some v)
          × (node_value c ≡ some (some v))
          × (json_of es opts v ≡ some x)
          × (nth vs i ≡ some x)
          × (i < count cs))
unfolding items_of nth child
nth-child es opts nil vs i h = let q : none_left ≡ vs = cc h in inl (rw (← q) refl, omega arith)
nth-child es opts (cons f ns) vs i h =
    by_view f (items_of-ItemView es opts f ns vs h) i (λ j rest. nth-child es opts ns rest j)
  where
    by_view :
        (f : Node)
        → ItemView es opts ns vs f
        → (i : ℕ)
        → ((j : ℕ) (rest : Items)
            → items_of es opts ns ≡ some rest
            → ((nth rest j ≡ none) × (count ns ≤ j))
              ⊎ ((c v : Node) × (x : Json) × (child ns j ≡ some c)
                  × (array_element_value c ≡ some v)
                  × (node_value c ≡ some (some v))
                  × (json_of es opts v ≡ some x)
                  × (nth rest j ≡ some x)
                  × (j < count ns)))
        → ((nth vs i ≡ none) × (count (cons f ns) ≤ i))
          ⊎ ((c v : Node) × (x : Json) × (child (cons f ns) i ≡ some c)
              × (array_element_value c ≡ some v)
              × (node_value c ≡ some (some v))
              × (json_of es opts v ≡ some x)
              × (nth vs i ≡ some x)
              × (i < count (cons f ns)))
    by_view _ (item_view {v = v} {x = x} hx hr q) zero again =
        inr (_, v, x, refl, refl, refl, hx, rw q refl, omega arith)
    by_view _ (item_view {rest = rest} hx hr q) (suc i) again = elim (again i rest hr) [
      | inl (a, b) ↦ inl (rw q a, omega arith)
      | inr (c, v, x, h1, h2, hv, h3, h4, h5) ↦ inr (c, v, x, h1, h2, hv, h3, rw q h4, omega arith)
    ]

-- what is known of a node that stands for a value
pub data Kind (es : List Elem) (opts : SyntaxOptions) : Node → Json → Type 0 where
  an_object :
      {s e : ℕ} {cs : Nodes} (ms : Members)
      → members_of es opts cs ≡ some ms
      → {v : Json} → v ≡ members ms
      → Kind es opts (node object s e cs) v
  an_array :
      {s e : ℕ} {cs : Nodes} (vs : Items)
      → items_of es opts cs ≡ some vs
      → {v : Json} → v ≡ items vs
      → Kind es opts (node array s e cs) v
  a_scalar :
      {t : NodeType} {s e : ℕ} {cs : Nodes} {v : Json}
      → is_object t ≡ false
      → is_array t ≡ false
      → is_container v ≡ false
      → Kind es opts (node t s e cs) v

pub json_of-Kind :
    (es : List Elem) (opts : SyntaxOptions) (n : Node) (v : Json)
    → json_of es opts n ≡ some v
    → Kind es opts n v
unfolding json_of
json_of-Kind es opts (node object s e cs) v h =
    let (ms, hm, q) = map_json_inv members (members_of es opts cs) v h in an_object ms hm (sym q)
json_of-Kind es opts (node array s e cs) v h =
    let (vs, hm, q) = map_json_inv items (items_of es opts cs) v h in an_array vs hm (sym q)
json_of-Kind es opts (node string_node s e cs) v h =
    let (t, ht, h1) = on_some_inv (value_at es s) _ v h in
    let (x, hx, q) = map_json_inv string (decode_string t opts) v h1 in
    a_scalar refl refl (rw (← q) refl)
json_of-Kind es opts (node number_node s e cs) v h =
    let (t, ht, h1) = on_some_inv (value_at es s) _ v h in
    let q : number t.literal ≡ v = cc h1 in a_scalar refl refl (rw (← q) refl)
json_of-Kind es opts (node bool_node s e cs) v h =
    let (t, _, _, _, q) = word_at_inv es s e boolean v h in a_scalar refl refl (rw q refl)
json_of-Kind es opts (node null_node s e cs) v h =
    let (t, _, _, _, q) = word_at_inv es s e null_value v h in a_scalar refl refl (rw q refl)
json_of-Kind es opts _ v h = cc h
