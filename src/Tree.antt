-- ===== src/Tree.antt =====
-- internal/sst/node.go, and what json/meta.go reads of a tree: source text, fields and elements, the
-- gaps between children, and the comments round a node. A pointer that the source follows without a
-- test, where it would be nil, is `none`: the code panics.
pub mod Comments
pub mod Gaps
pub mod Indentation
pub mod Walks
pub mod Copies
pub mod Clones
use roundtrip.Base.{
  ℕ, zero, suc, Text, List, [], ◌∷◌, ◌++◌, Bool, true, false, ◌||◌, Option, none, some, ◌==◌,
  if◌then◌else◌, text_eq, length, ◌+◌,
}
use roundtrip.Decoder.{
  Node, node, Nodes, nil, cons, start_of, end_of, is_colon, is_identifier, is_space_token,
}
use roundtrip.Document.{Meta}
use roundtrip.Quote.{unquote_string}
use roundtrip.Syntax.{json5}
use roundtrip.Token.{comma, comment, whitespace, newline, NodeType, Token, literals, is_anchor}
use roundtrip.TokenList.Ranges.{from, behind, ahead, copies, copy_of, cut, Range}
use roundtrip.TokenList.{Elem, TokenList, value_at}

-- a handle to a node, with the tokens of the document that owns it
pub record Handle : Type 0 where
  pub owner : Meta
  pub node : Node

-- `Root`
abbrev pub root : Meta → Handle
root m = record { owner = m; node = m.root }

-- the chaining of what may panic
abbrev pub on_some {ℓ κ} : {A : Type ℓ} {B : Type κ} → Option A → (A → Option B) → Option B
on_some none k = none
on_some (some a) k = k a

-- `Node.Tokens`, from the element that starts the list
unfoldable pub tokens_until : ℕ → List Elem → List Token
tokens_until last [] = []
tokens_until last (e ∷ es) =
    let rest = tokens_until last es in
    let more = if e.id == last then [] else rest in
    if is_anchor e.value.type then more else e.value ∷ more

unfoldable pub node_tokens : List Elem → Node → List Token
node_tokens es n = tokens_until (end_of n) (from es (start_of n))

-- `Node.Bytes`
abbrev pub bytes : List Elem → Node → Text
bytes es n = literals (node_tokens es n)

-- `cloneNode`, where `copy` is the map from the elements to their copies; for an element without a copy,
-- where the source stores nil, there is no clone
unfoldable mutual
  pub clone_node : (ℕ → Option ℕ) → Node → Option Node
  clone_node copy (node typ s e children) = on_some (copy s) λ s'.
      on_some (copy e) λ e'. on_some (clone_nodes copy children) λ cs. some (node typ s' e' cs)

  pub clone_nodes : (ℕ → Option ℕ) → Nodes → Option Nodes
  clone_nodes copy nil = some nil
  clone_nodes copy (cons n ns) =
      on_some (clone_node copy n) λ m. on_some (clone_nodes copy ns) λ ms. some (cons m ms)

-- the list of the copies of a range, made from the address `fresh` on, and the node over it
abbrev pub cloned : Node → ℕ → Range → Option (Node × TokenList)
cloned n fresh r =
    let cs = copies r.inside fresh in
    on_some (clone_node (copy_of r.inside fresh) n)
      λ m. some (m, record { elems = cs; fresh = fresh + length cs })

-- `Node.Clone`
unfoldable pub clone : ℕ → List Elem → Node → Option (Node × TokenList)
clone fresh es n = on_some (cut es (start_of n) (end_of n)) (cloned n fresh)

-- The slice of children.
abbrev pub count : Nodes → ℕ
count nil = 0
count (cons n ns) = suc (count ns)

unfoldable pub child : Nodes → ℕ → Option Node
child nil i = none
child (cons n ns) zero = some n
child (cons n ns) (suc i) = child ns i

abbrev pub type_of : Node → NodeType
type_of (node t _ _ _) = t

abbrev pub children_of : Node → Nodes
children_of (node _ _ _ cs) = cs

-- `objectFieldKey`, `objectFieldValue` and `arrayElementValue`
abbrev pub object_field_key : Node → Option Node
object_field_key n = child (children_of n) 0

abbrev pub object_field_value : Node → Option Node
object_field_value n = child (children_of n) 1

abbrev pub array_element_value : Node → Option Node
array_element_value n = child (children_of n) 0

-- `decodeKeyLiteral`, with `none` for its error
abbrev decode_key_literal : Token → Option Text
decode_key_literal t =
    if is_identifier t.type then some t.literal else unquote_string t.literal json5

-- `mustDecodeKeyLiteral` of a field's key
abbrev pub field_name : List Elem → Node → Option Text
field_name es field =
    on_some (object_field_key field) λ key. on_some (value_at es (start_of key)) decode_key_literal

abbrev pub further : Option (ℕ × Node) → Option (ℕ × Node)
further none = none
further (some (i, n)) = some (suc i, n)

-- `objectFieldIndex`: the outer option is the panic
unfoldable pub object_field_index : List Elem → Text → Nodes → Option (Option (ℕ × Node))
object_field_index es name nil = some none
object_field_index es name (cons field fields) =
    let rest = object_field_index es name fields in
    on_some (field_name es field) λ key.
      if text_eq key name then some (some (0, field)) else on_some rest (λ o. some (further o))

-- The walks from element to element that stop at `last`, or behind the last element.
-- `gapTokens`
pub gap_from : ℕ → List Elem → List Token
gap_from last [] = []
gap_from last (e ∷ es) =
    let rest = gap_from last es in
    if e.id == last then [] else if is_space_token e.value.type then e.value ∷ rest else []

pub gap_tokens : List Elem → ℕ → ℕ → List Token
gap_tokens es first last = gap_from last (behind es first)

-- the loop of `leadingGap`, on the tokens that were kept so far
unfoldable pub leading_from : ℕ → List Token → List Elem → List Token
leading_from last kept [] = kept
leading_from last kept (e ∷ es) = elim (e.id == last) [
  | true ↦ kept
  | false ↦ elim e.value.type [
    | comma ↦ leading_from last [] es
    | comment ↦ leading_from last [] es
    | newline ↦ leading_from last (e.value ∷ []) es
    | whitespace ↦ leading_from last (kept ++ e.value ∷ []) es
    | _ ↦ kept
  ]
]

-- `leadingGap`
unfoldable pub leading_gap : List Elem → Node → ℕ → Option (List Token)
leading_gap es n zero =
    on_some (child (children_of n) 0)
      λ c. some (leading_from (start_of c) [] (behind es (start_of n)))
leading_gap es n (suc i) = on_some (child (children_of n) i) λ p.
    on_some (child (children_of n) (suc i))
      λ c. some (leading_from (start_of c) [] (behind es (end_of p)))

-- the inner loop of `fieldValuePrefix`: whether a colon was seen, and the text behind it
unfoldable pub prefix_from : ℕ → Bool → List Elem → Option (Bool × Text)
prefix_from stop seen [] = none
prefix_from stop seen (e ∷ es) =
    let rest = prefix_from stop (seen || is_colon e.value.type) es in
    if e.id == stop
    then some (seen, [])
    else on_some rest λ (after, t). some (after, if seen then e.value.literal ++ t else t)

-- `fieldValuePrefix`
unfoldable pub field_value_prefix : List Elem → Nodes → Option Text
field_value_prefix es nil = some []
field_value_prefix es (cons field fields) =
    let rest = field_value_prefix es fields in
    on_some (object_field_key field) λ key. on_some (object_field_value field) λ value.
      on_some (prefix_from (start_of value) false (behind es (end_of key)))
        λ (after, t). if after then some t else rest
