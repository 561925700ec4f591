-- ===== src/Equality/Shapes.antt =====
-- The equality of values, and a node by the kind of the value that it stands for.
use roundtrip.Base.{
  [], ℕ, ◌≡◌, refl, sym, Text, List, ◌∷◌, Bool, true, false, Bool-cases, inl, inr, ◌&&◌, ◌==◌,
  Option, none, some, text_eq, append-nil,
}
use roundtrip.Decoder.{Node, node, Nodes}
use roundtrip.Equality.Numerals.{number_equal}
use roundtrip.Json.Insertion.{size, width}
use roundtrip.Json.Views.{map_json_inv, word_at_inv}
use roundtrip.Json.{
  Json, members, items, string, number, boolean, null_value, Items, item, Members, end, member,
  json_of, items_of, members_of, lookup, decode_string,
}
use roundtrip.Syntax.{SyntaxOptions}
use roundtrip.Token.{
  NodeType, object, array, string_node, number_node, bool_node, null_node, Token, is_anchor,
}
use roundtrip.TokenList.Ranges.{from}
use roundtrip.TokenList.{Elem, value_at}
use roundtrip.Tree.Copies.{on_some_inv}
use roundtrip.Tree.{bytes, node_tokens, tokens_until}

abbrev pub found_equal : Option Json → (Json → Bool) → Bool
found_equal none eq = false
found_equal (some w) eq = eq w

-- the equality of values by a test of numbers: of objects in any order of their members
module _ (same : Text → Text → Bool) where
  unfoldable mutual
    pub json_equal_by : Json → Json → Bool
    json_equal_by (members ms) (members ns) = (width ms == width ns) && all_members ms ns
    json_equal_by (items vs) (items ws) = (size vs == size ws) && all_items vs ws
    json_equal_by (string s) (string t) = text_eq s t
    json_equal_by (number s) (number t) = same s t
    json_equal_by (boolean s) (boolean t) = text_eq s t
    json_equal_by (null_value s) (null_value t) = text_eq s t
    json_equal_by _ _ = false

    pub all_members : Members → Members → Bool
    all_members end ns = true
    all_members (member k v ms) ns =
        let rest = all_members ms ns in found_equal (lookup ns k) (λ w. json_equal_by v w) && rest

    pub all_items : Items → Items → Bool
    all_items (item v vs) (item w ws) = let rest = all_items vs ws in json_equal_by v w && rest
    all_items _ _ = true

-- the equality of values, of numbers by what they denote
abbrev pub json_equal : Json → Json → Bool
json_equal v w = json_equal_by number_equal v w

-- the source text of a scalar
tokens_until-one :
    (es : List Elem) (s : ℕ) (t : Token)
    → value_at es s ≡ some t
    → is_anchor t.type ≡ false
    → tokens_until s (from es s) ≡ t ∷ []
unfolding value_at from tokens_until
tokens_until-one [] s t h a = cc h
tokens_until-one (e ∷ es) s t h a = elim (Bool-cases (e.id == s)) [
  | inl y ↦
      let k : some e.value ≡ some t = rw y at h in
      let q : e.value ≡ t = cc k in rw (y, y, q, a) refl
  | inr n ↦ rw n (tokens_until-one es s t (rw n at h) a)
]

pub bytes-one :
    (es : List Elem) (ty : NodeType) (s e : ℕ) (cs : Nodes) (t : Token)
    → s ≡ e
    → value_at es s ≡ some t
    → is_anchor t.type ≡ false
    → bytes es (node ty s e cs) ≡ t.literal
unfolding node_tokens
bytes-one es ty s e cs t q h a = rw (← q, tokens_until-one es s t h a) (append-nil t.literal)

-- a node by the kind of the value that it stands for
pub data Shape (es : List Elem) (opts : SyntaxOptions) : Node → Json → Type 0 where
  an_object :
      {s e : ℕ} {cs : Nodes} {v : Json} (ms : Members)
      → members_of es opts cs ≡ some ms
      → v ≡ members ms
      → Shape es opts (node object s e cs) v
  an_array :
      {s e : ℕ} {cs : Nodes} {v : Json} (vs : Items)
      → items_of es opts cs ≡ some vs
      → v ≡ items vs
      → Shape es opts (node array s e cs) v
  a_string :
      {s e : ℕ} {cs : Nodes} {v : Json} (t : Token) (x : Text)
      → value_at es s ≡ some t
      → decode_string t opts ≡ some x
      → v ≡ string x
      → Shape es opts (node string_node s e cs) v
  a_number :
      {s e : ℕ} {cs : Nodes} {v : Json} (t : Token)
      → value_at es s ≡ some t
      → v ≡ number t.literal
      → Shape es opts (node number_node s e cs) v
  a_bool :
      {s e : ℕ} {cs : Nodes} {v : Json} (x : Text)
      → bytes es (node bool_node s e cs) ≡ x
      → v ≡ boolean x
      → Shape es opts (node bool_node s e cs) v
  a_null :
      {s e : ℕ} {cs : Nodes} {v : Json} (x : Text)
      → bytes es (node null_node s e cs) ≡ x
      → v ≡ null_value x
      → Shape es opts (node null_node s e cs) v

pub json_of-Shape :
    (es : List Elem) (opts : SyntaxOptions) (n : Node) (v : Json)
    → json_of es opts n ≡ some v
    → Shape es opts n v
unfolding json_of
json_of-Shape es opts (node object s e cs) v h =
    let (ms, hm, q) = map_json_inv members (members_of es opts cs) v h in an_object ms hm (sym q)
json_of-Shape es opts (node array s e cs) v h =
    let (vs, hm, q) = map_json_inv items (items_of es opts cs) v h in an_array vs hm (sym q)
json_of-Shape es opts (node string_node s e cs) v h =
    let (t, ht, h1) = on_some_inv (value_at es s) _ v h in
    let (x, hx, q) = map_json_inv string (decode_string t opts) v h1 in a_string t x ht hx (sym q)
json_of-Shape es opts (node number_node s e cs) v h =
    let (t, ht, h1) = on_some_inv (value_at es s) _ v h in
    let q : number t.literal ≡ v = cc h1 in a_number t ht (sym q)
json_of-Shape es opts (node bool_node s e cs) v h =
    let (t, q, ht, na, k) = word_at_inv es s e boolean v h in
    a_bool t.literal (bytes-one es bool_node s e cs t q ht na) k
json_of-Shape es opts (node null_node s e cs) v h =
    let (t, q, ht, na, k) = word_at_inv es s e null_value v h in
    a_null t.literal (bytes-one es null_node s e cs t q ht na) k
json_of-Shape es opts _ v h = cc h
