-- ===== src/Json.antt =====
-- The value that a node of a document stands for, and what a pointer selects in it: by RFC 6901, and with
-- array indices that may also have leading zeros and a sign.
pub mod Views
pub mod Copies
pub mod Frames
pub mod Updates
pub mod Pointers
pub mod Insertion
pub mod Rfc
use roundtrip.Base.{
  ℕ, zero, suc, Text, List, [], ◌∷◌, Bool, true, false, Option, none, some, if◌then◌else◌, text_eq,
  ◌==◌,
}
use roundtrip.Decoder.{Node, node, Nodes, nil, cons, is_identifier}
use roundtrip.Pointer.Positional.{in_int, rfc_index, index_of}
use roundtrip.Quote.{unquote_string}
use roundtrip.Syntax.{SyntaxOptions}
use roundtrip.Token.{
  NodeType, object, object_field, array, array_element, string_node, number_node, bool_node,
  null_node, Token, is_anchor,
}
use roundtrip.TokenList.{Elem, value_at}
use roundtrip.Tree.{field_name, on_some}

mutual
  pub data Json : Type 0 where
    members : Members → Json
    items : Items → Json
    string : Text → Json
    number : Text → Json
    boolean : Text → Json
    null_value : Text → Json

  pub data Items : Type 0 where
    none_left : Items
    item : Json → Items → Items

  pub data Members : Type 0 where
    end : Members
    member : Text → Json → Members → Members

abbrev pub map_json {ℓ κ} : {A : Type ℓ} {B : Type κ} → (A → B) → Option A → Option B
map_json f none = none
map_json f (some a) = some (f a)

-- `decodeString` of the token of a string, with `none` for its error
abbrev pub decode_string : Token → SyntaxOptions → Option Text
decode_string t opts =
    if is_identifier t.type then some t.literal else unquote_string t.literal opts

-- a scalar that is one token, and no anchor
abbrev pub word_at : List Elem → ℕ → ℕ → (Text → Json) → Option Json
word_at es s e make =
    if s == e
    then on_some (value_at es s) (λ t. if is_anchor t.type then none else some (make t.literal))
    else none

-- the value of a node: a string by its text, the other scalars by their literals
unfoldable mutual
  pub json_of : List Elem → SyntaxOptions → Node → Option Json
  json_of es opts (node object s e cs) = map_json members (members_of es opts cs)
  json_of es opts (node array s e cs) = map_json items (items_of es opts cs)
  json_of es opts (node string_node s e cs) =
      on_some (value_at es s) λ t. map_json string (decode_string t opts)
  json_of es opts (node number_node s e cs) = on_some (value_at es s) λ t. some (number t.literal)
  json_of es opts (node bool_node s e cs) = word_at es s e boolean
  json_of es opts (node null_node s e cs) = word_at es s e null_value
  json_of es opts _ = none

  pub items_of : List Elem → SyntaxOptions → Nodes → Option Items
  items_of es opts nil = some none_left
  items_of es opts (cons (node array_element s e (cons v nil)) ns) =
      on_some (json_of es opts v) λ x. map_json (item x) (items_of es opts ns)
  items_of es opts _ = none

  pub members_of : List Elem → SyntaxOptions → Nodes → Option Members
  members_of es opts nil = some end
  members_of es opts (cons (node object_field s e (cons k (cons v nil))) ns) =
      on_some (field_name es (node object_field s e (cons k (cons v nil))))
        λ name. on_some (json_of es opts v) λ x. map_json (member name x) (members_of es opts ns)
  members_of es opts _ = none

unfoldable pub lookup : Members → Text → Option Json
lookup end name = none
lookup (member k v ms) name = if text_eq k name then some v else lookup ms name

unfoldable pub nth : Items → ℕ → Option Json
nth none_left i = none
nth (item v vs) zero = some v
nth (item v vs) (suc i) = nth vs i

-- the member or the element that a token of a pointer selects by RFC 6901, in arrays that a slice can hold
abbrev pub rfc_select : Text → Json → Option Json
rfc_select token (members ms) = lookup ms token
rfc_select token (items vs) = on_some (in_int (rfc_index token)) (nth vs)
rfc_select token _ = none

-- the same, where an array index may also have leading zeros and a sign
abbrev pub select : Text → Json → Option Json
select token (members ms) = lookup ms token
select token (items vs) = on_some (index_of token) (nth vs)
select token _ = none

-- the value that the tokens of a pointer select, one after the other
module _ {S : Type 0} (choose : S → Json → Option Json) where
  abbrev pub select_all : List S → Json → Option Json
  select_all [] v = some v
  select_all (s ∷ ss) v = on_some (choose s v) (select_all ss)

abbrev pub is_container : Json → Bool
is_container (members ms) = true
is_container (items vs) = true
is_container _ = false
