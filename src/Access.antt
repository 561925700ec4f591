-- ===== src/Access.antt =====
-- json/meta.go and json/path.go: the lookups of fields and elements, and the walks by path and by JSON
-- pointer. A node that is found is named by its position: the index of the child at each level.
pub mod Evaluates
pub mod Selects
pub mod Within
use roundtrip.Base.{
  ℕ, zero, suc, ◌+◌, Text, List, [], ◌∷◌, Bool, true, false, not, Option, none, some, if◌then◌else◌,
  ltb,
}
use roundtrip.Decoder.{Node, node, Nodes, nil, cons}
use roundtrip.Edit.{
  EditError, wrong_node_type, object_field_not_found, array_index_out_of_range, is_object, is_array,
}
use roundtrip.Pointer.{
  ArrayIndex, index, invalid_append, invalid_path_segment, pointer_array_index, parse_json_pointer,
}
use roundtrip.Token.{NodeType, object, object_field, array, array_element}
use roundtrip.TokenList.{Elem}
use roundtrip.Tree.{
  count, child, children_of, type_of, object_field_index, object_field_key, object_field_value,
  array_element_value, on_some,
}

-- what a lookup finds: a child's index and its value; the outer option is a panic
abbrev pub Looked : Type 0
Looked = Option (Option (ℕ × Node))

-- `Value`; the outer option is a panic
abbrev pub node_value : Node → Option (Option Node)
node_value (node object_field s e cs) =
    on_some (object_field_value (node object_field s e cs)) λ v. some (some v)
node_value (node array_element s e cs) =
    on_some (array_element_value (node array_element s e cs)) λ v. some (some v)
node_value _ = some none

-- `Key`
abbrev pub node_key : Node → Option (Option Node)
node_key (node object_field s e cs) =
    on_some (object_field_key (node object_field s e cs)) λ k. some (some k)
node_key _ = some none

abbrev pub with_index : ℕ → Option Node → Option (ℕ × Node)
with_index i none = none
with_index i (some v) = some (i, v)

abbrev pub field_found : Option (ℕ × Node) → Looked
field_found none = some none
field_found (some (i, field)) = on_some (node_value field) λ v. some (with_index i v)

-- `ObjectFieldNode`
unfoldable pub object_field_node : List Elem → Node → Text → Looked
object_field_node es n name =
    if not (is_object (type_of n)) then some none else object_field_index es name (children_of n)

-- `ObjectField`
unfoldable pub object_field_at : List Elem → Node → Text → Looked
unfolding object_field_node
object_field_at es n name = on_some (object_field_node es n name) field_found

-- `ArrayElement`
abbrev pub array_element_at : Node → ℕ → Option Node
array_element_at n i =
    if is_array (type_of n)
    then (if ltb i (count (children_of n)) then child (children_of n) i else none)
    else none

-- `ArrayValue` at an index that is not negative
unfoldable pub array_value_at : Node → ℕ → Looked
array_value_at n i =
    if not (is_array (type_of n))
    then some none
    else if not (ltb i (count (children_of n)))
    then some none
    else on_some (child (children_of n) i)
        λ c. on_some (array_element_value c) λ v. some (some (i, v))

abbrev pub flat : Option (Option Node) → Option Node
flat none = none
flat (some o) = o

-- the value of the child at an index, and the node at a position
abbrev pub value_child : Node → ℕ → Option Node
value_child n i = on_some (child (children_of n) i) λ c. flat (node_value c)

abbrev pub node_at : Node → List ℕ → Option Node
node_at n [] = some n
node_at n (i ∷ is) = on_some (value_child n i) λ m. node_at m is

-- a segment of a path
pub data Segment : Type 0 where
  field : Text → Segment
  element : ℕ → Segment
  below_zero append other : Segment

-- why an operation on a path fails
pub data Cause : Type 0 where
  edit : EditError → Cause
  empty_path invalid_segment append_segment invalid_json_pointer : Cause

pub data Op : Type 0 where
  access replace insert remove add : Op

-- `PathError`, with `none` for the index -1
pub record PathError : Type 0 where
  pub op : Op
  pub index : Option ℕ
  pub cause : Cause

-- one step of a walk: to a child's value, or an error
pub data Stepped : Type 0 where
  to : ℕ → Node → Stepped
  refused : Cause → Stepped
  fault : Stepped

abbrev pub looked_or : Looked → Cause → Stepped
looked_or none c = fault
looked_or (some none) c = refused c
looked_or (some (some (i, v))) c = to i v

abbrev pub index_cause : Node → Cause
index_cause n =
    if not (is_array (type_of n)) then edit wrong_node_type else edit array_index_out_of_range

-- the body of the loop of `At`
pub at_segment : List Elem → Node → Segment → Stepped
at_segment es n (field name) =
    looked_or (object_field_at es n name)
      (if not (is_object (type_of n)) then edit wrong_node_type else edit object_field_not_found)
at_segment es n (element i) = looked_or (array_value_at n i) (index_cause n)
at_segment es n below_zero = refused (index_cause n)
at_segment es n append = refused append_segment
at_segment es n other = refused invalid_segment

abbrev pub element_at_token : Node → ArrayIndex → Stepped
element_at_token n (index i) = looked_or (array_value_at n i) (edit array_index_out_of_range)
element_at_token n invalid_append = refused append_segment
element_at_token n invalid_path_segment = refused invalid_segment

-- `pointerToken`
unfoldable pub pointer_token : List Elem → Bool → Node → Text → Stepped
pointer_token es allow_append n token =
    if is_object (type_of n)
    then looked_or (object_field_at es n token) (edit object_field_not_found)
    else if is_array (type_of n)
    then element_at_token n (pointer_array_index token allow_append)
    else refused (edit wrong_node_type)

-- what a walk ends with
pub data Reached : Type 0 where
  found : List ℕ → Node → Reached
  lost : PathError → Reached
  crashed : Reached

abbrev pub below : ℕ → Reached → Reached
below i (found is n) = found (i ∷ is) n
below i r = r

abbrev pub go_on : Op → ℕ → Stepped → (Node → Reached) → Reached
go_on op k (to i n) more = below i (more n)
go_on op k (refused c) more = lost (record { op = op; index = some k; cause = c })
go_on op k fault more = crashed

module _ {S : Type 0} (step : Node → S → Stepped) (op : Op) where
  -- the loop over the segments, of which `k` are done
  unfoldable pub walk : ℕ → List S → Node → Reached
  walk k [] n = found [] n
  walk k (s ∷ ss) n = go_on op k (step n s) (walk (k + 1) ss)

-- `At`
pub at : List Elem → Node → List Segment → Reached
at es n path = walk (at_segment es) access 0 path n

abbrev pub all_but_last {ℓ} : {A : Type ℓ} → List A → List A
all_but_last [] = []
all_but_last (x ∷ []) = []
all_but_last (x ∷ y ∷ ys) = x ∷ all_but_last (y ∷ ys)

-- `pointerParent`
unfoldable pub pointer_parent : List Elem → Node → Op → List Text → Reached
pointer_parent es n op tokens = walk (pointer_token es false) op 0 (all_but_last tokens) n

abbrev pub bad_pointer : Op → PathError
bad_pointer op = record { op = op; index = none; cause = invalid_json_pointer }

abbrev pub point : List Elem → Node → Option (List Text) → Reached
point es n none = lost (bad_pointer access)
point es n (some tokens) = walk (pointer_token es false) access 0 tokens n

-- `JSONPointer`
pub json_pointer : List Elem → Node → Text → Reached
json_pointer es n pointer = point es n (parse_json_pointer pointer)
