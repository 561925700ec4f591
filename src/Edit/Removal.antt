-- ===== src/Edit/Removal.antt =====
-- json/meta.go: the removal of fields and elements.
pub mod Layout
use roundtrip.Base.{
  ℕ, zero, suc, ◌+◌, ◌-◌, Text, List, [], ◌∷◌, Bool, true, false, Option, none, some, ◌==◌,
  if◌then◌else◌, not, ltb,
}
use roundtrip.Decoder.{Node, node, Nodes, nil, cons, start_of, end_of}
use roundtrip.Edit.{
  Edited, failed, panicked, edited, elems_of, children, with_children, is_object, is_array,
  wrong_node_type, object_field_not_found, array_index_out_of_range,
}
use roundtrip.Token.{TokenType, comma}
use roundtrip.TokenList.Ranges.{behind, ahead, replace_range}
use roundtrip.TokenList.{Elem, new_list}
use roundtrip.Tree.{Handle, count, child, children_of, type_of, object_field_index, on_some}

abbrev pub drop_child : Nodes → ℕ → Nodes
drop_child nil i = nil
drop_child (cons n ns) zero = ns
drop_child (cons n ns) (suc i) = cons n (drop_child ns i)

-- `removeChildRange`
abbrev first_id : List Elem → Option ℕ
first_id [] = none
first_id (e ∷ es) = some e.id

abbrev is_comma : TokenType → Bool
is_comma comma = true
is_comma _ = false

unfoldable pub comma_before : ℕ → List Elem → Option ℕ
comma_before stop [] = none
comma_before stop (e ∷ es) =
    let rest = comma_before stop es in
    if e.id == stop then none else if is_comma e.value.type then some e.id else rest

abbrev or_else : Option ℕ → ℕ → ℕ
or_else none i = i
or_else (some j) i = j

pub remove_child_range : List Elem → Node → ℕ → Option (ℕ × ℕ)
unfolding comma_before
remove_child_range es n i = on_some (child (children_of n) i) λ c.
    if count (children_of n) == 1
    then some (start_of c, or_else (comma_before (end_of n) (behind es (end_of c))) (end_of c))
    else if ltb i (count (children_of n) - 1)
    then on_some (child (children_of n) (suc i))
        (λ d. on_some (first_id (ahead es (start_of d))) λ p. some (start_of c, p))
    else on_some (child (children_of n) (i - 1))
        (λ b. on_some (first_id (behind es (end_of b))) λ q. some (q, end_of c))

-- what the removals of a field and of an element do alike
remove_range : Handle → ℕ → Option (ℕ × ℕ) → Edited
remove_range n i none = panicked
remove_range n i (some (first, last)) =
    edited (with_children n.node (drop_child (children n) i))
      (replace_range n.owner.tokens first last (new_list n.owner.tokens.fresh))

pub remove_child : Handle → ℕ → Edited
unfolding remove_range remove_child_range
remove_child n i = remove_range n i (remove_child_range (elems_of n) n.node i)

remove_found : Handle → Option (Option (ℕ × Node)) → Edited
unfolding remove_child
remove_found n none = panicked
remove_found n (some none) = failed object_field_not_found
remove_found n (some (some (i, _))) = remove_child n i

-- `RemoveObjectField`
pub remove_object_field : Handle → Text → Edited
unfolding remove_found
remove_object_field n name =
    if not (is_object (type_of n.node))
    then failed wrong_node_type
    else remove_found n (object_field_index (elems_of n) name (children n))

-- `RemoveArrayValue` at an index that is not negative
pub remove_array_value : Handle → ℕ → Edited
unfolding remove_child
remove_array_value n i =
    if not (is_array (type_of n.node))
    then failed wrong_node_type
    else if not (ltb i (count (children n)))
    then failed array_index_out_of_range
    else remove_child n i
