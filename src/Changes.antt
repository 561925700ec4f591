-- ===== src/Changes.antt =====
-- json/path.go and the wrappers of json/meta.go: the changes of what a path or a JSON pointer selects, for
-- values that are nodes. A change returns the receiver as it is then, with the document's token list.
pub mod Places
pub mod Updates
pub mod Insertion
use roundtrip.Access.{
  Looked, value_child, Segment, field, element, below_zero, append, other, Cause, edit, empty_path,
  invalid_segment, append_segment, invalid_json_pointer, Op, access, replace, insert, remove,
  PathError, Reached, found, lost, crashed, object_field_at, array_value_at, index_cause, at,
  all_but_last, pointer_parent, bad_pointer,
}
use roundtrip.Base.{
  ℕ, Text, codes, List, [], ◌∷◌, Bool, true, false, not, Option, none, some, if◌then◌else◌, length,
  text_eq,
}
use roundtrip.Chars.{Unicode}
use roundtrip.Decoder.{Node, node, Nodes, nil, cons}
use roundtrip.Edit.Removal.{remove_object_field, remove_array_value}
use roundtrip.Edit.Renaming.{set_child}
use roundtrip.Edit.{
  EditError, wrong_node_type, object_field_not_found, object_field_exists, array_index_out_of_range,
  Edited, done, failed, panicked, no_fuel, edited, elems_of, children, with_children, is_object,
  is_array, replace_with_node, insert_array_value_node, insert_object_field_node,
}
use roundtrip.Pointer.{
  ArrayIndex, index, invalid_append, invalid_path_segment, pointer_array_index, parse_json_pointer,
}
use roundtrip.Token.{object_field, array_element}
use roundtrip.TokenList.{TokenList}
use roundtrip.Tree.{Handle, count, child, children_of, type_of, on_some}

-- an error of an operation, alone or in a `PathError`
pub data Failure : Type 0 where
  alone : Cause → Failure
  in_path : PathError → Failure

pub data Changed : Type 0 where
  changed : TokenList → Node → Changed
  failure : Failure → Changed
  crash : Changed
  starved : Changed

-- the child that holds a value, when that value is changed in its place
abbrev pub with_value : Node → Node → Node
with_value (node object_field s e (cons k vs)) m = node object_field s e (cons k (set_child vs 0 m))
with_value (node t s e cs) m = node t s e (set_child cs 0 m)

abbrev pub set_value : Node → ℕ → Node → Option Node
set_value n i m =
    on_some (child (children_of n) i)
      λ c. some (with_children n (set_child (children_of n) i (with_value c m)))

-- the receiver, when the node at a position below it is changed in its place
abbrev pub set_at : Node → List ℕ → Node → Option Node
set_at n [] m = some m
set_at n (i ∷ is) m = on_some (value_child n i) λ c. on_some (set_at c is m) λ c'. set_value n i c'

abbrev pub put : TokenList → Option Node → Changed
put ts none = crash
put ts (some n) = changed ts n

-- what a change of the node at a position is for the receiver
abbrev pub landed : Node → List ℕ → (Cause → Failure) → Edited → Changed
landed n is wrap (done ts m) = put ts (set_at n is m)
landed n is wrap (failed e) = failure (wrap (edit e))
landed n is wrap panicked = crash
landed n is wrap no_fuel = starved

-- a change of the node, or a refusal by the code of the path
pub data Attempt : Type 0 where
  attempt : Edited → Attempt
  deny : Cause → Attempt

-- the index that a token names in an array, or the error of `pointerArrayIndex`
abbrev pub on_index : ArrayIndex → (ℕ → Attempt) → Attempt
on_index (index i) k = k i
on_index invalid_append k = deny append_segment
on_index invalid_path_segment k = deny invalid_segment

abbrev pub settle : Node → List ℕ → (Cause → Failure) → Attempt → Changed
settle n is wrap (attempt r) = landed n is wrap r
settle n is wrap (deny c) = failure (wrap c)

abbrev pub handle_at : Handle → Node → Handle
handle_at n m = record { owner = n.owner; node = m }

-- the change of the node that a walk from the receiver reaches
abbrev pub change_at : Handle → (Cause → Failure) → (Handle → Attempt) → Reached → Changed
change_at n wrap f (found is m) = settle n.node is wrap (f (handle_at n m))
change_at n wrap f (lost e) = failure (in_path e)
change_at n wrap f crashed = crash

abbrev pub at_index_of : Op → ℕ → Cause → Failure
at_index_of op i c = in_path (record { op = op; index = some i; cause = c })

abbrev pub no_path : Op → Changed
no_path op = failure (in_path (record { op = op; index = none; cause = empty_path }))

abbrev pub last : {A : Type 0} → A → List A → A
last x [] = x
last x (y ∷ ys) = last y ys

-- the value of the child, changed in its place
abbrev pub done_with : TokenList → Option Node → Edited
done_with ts none = panicked
done_with ts (some n) = done ts n

abbrev pub under : Handle → ℕ → Edited → Edited
under n i (done ts m) = done_with ts (set_value n.node i m)
under n i r = r

module _ (u : Unicode) (rune_len : ℕ → ℕ) where
  replace_looked : Handle → Handle → EditError → Looked → Edited
  replace_looked n value e none = panicked
  replace_looked n value e (some none) = failed e
  replace_looked n value e (some (some (i, v))) =
      under n i (replace_with_node u rune_len (handle_at n v) value)

  -- `ReplaceObjectField`
  pub replace_object_field : Handle → Text → Handle → Edited
  unfolding replace_looked
  replace_object_field n name value =
      replace_looked n value
        (if not (is_object (type_of n.node)) then wrong_node_type else object_field_not_found)
        (object_field_at (elems_of n) n.node name)

  -- `ReplaceArrayValue` at an index that is not negative
  pub replace_array_value : Handle → ℕ → Handle → Edited
  unfolding replace_looked
  replace_array_value n i value =
      replace_looked n value
        (if not (is_array (type_of n.node)) then wrong_node_type else array_index_out_of_range)
        (array_value_at n.node i)

  -- the `switch` of `ReplaceAt`
  pub replace_segment : Handle → Segment → Handle → Attempt
  unfolding replace_object_field
  replace_segment value (field name) p = attempt (replace_object_field p name value)
  replace_segment value (element i) p = attempt (replace_array_value p i value)
  replace_segment value below_zero p = deny (index_cause p.node)
  replace_segment value append p = deny append_segment
  replace_segment value other p = deny invalid_segment

  -- an insertion of a field, behind the search for its name
  unless_exists : Looked → Edited → Attempt
  unless_exists none r = attempt panicked
  unless_exists (some (some f)) r = deny (edit object_field_exists)
  unless_exists (some none) r = attempt r

  -- the `switch` of `InsertAt`
  pub insert_segment : Handle → Segment → Handle → Attempt
  unfolding unless_exists
  insert_segment value (field name) p =
      if not (is_object (type_of p.node))
      then deny (edit wrong_node_type)
      else unless_exists (object_field_at (elems_of p) p.node name)
          (insert_object_field_node u rune_len p name value)
  insert_segment value (element i) p = attempt (insert_array_value_node u rune_len p i value)
  insert_segment value below_zero p = deny (index_cause p.node)
  insert_segment value append p =
      attempt (insert_array_value_node u rune_len p (count (children p)) value)
  insert_segment value other p = deny invalid_segment

  -- the `switch` of `ReplaceJSONPointer`
  pub replace_token : Handle → Text → Handle → Attempt
  replace_token value token p =
      if is_object (type_of p.node)
      then attempt (replace_object_field p token value)
      else if is_array (type_of p.node)
      then on_index (pointer_array_index token false) (λ i. attempt (replace_array_value p i value))
      else deny (edit wrong_node_type)

  -- the `switch` of `InsertJSONPointer`
  pub insert_token : Handle → Text → Handle → Attempt
  unfolding unless_exists
  insert_token value token p =
      if is_object (type_of p.node)
      then unless_exists (object_field_at (elems_of p) p.node token)
          (insert_object_field_node u rune_len p token value)
      else if is_array (type_of p.node)
      then (if text_eq token (codes "-")
          then attempt (insert_array_value_node u rune_len p (count (children p)) value)
          else on_index (pointer_array_index token false)
              (λ i. attempt (insert_array_value_node u rune_len p i value)))
      else deny (edit wrong_node_type)

-- the `switch` of `RemoveAt`
pub remove_segment : Segment → Handle → Attempt
remove_segment (field name) p = attempt (remove_object_field p name)
remove_segment (element i) p = attempt (remove_array_value p i)
remove_segment below_zero p = deny (index_cause p.node)
remove_segment append p = deny append_segment
remove_segment other p = deny invalid_segment

-- the `switch` of `RemoveJSONPointer`
pub remove_token : Text → Handle → Attempt
remove_token token p =
    if is_object (type_of p.node)
    then attempt (remove_object_field p token)
    else if is_array (type_of p.node)
    then on_index (pointer_array_index token false) (λ i. attempt (remove_array_value p i))
    else deny (edit wrong_node_type)

-- a change by a path: of the receiver for the empty path, else below the parent of what it addresses
abbrev pub along_path :
    Handle → Op → List Segment → Changed → (Segment → Handle → Attempt) → Changed
along_path n op [] whole f = whole
along_path n op (s ∷ ss) whole f =
    change_at n (at_index_of op (length ss)) (f (last s ss))
      (at (elems_of n) n.node (all_but_last (s ∷ ss)))

-- a change by a pointer
abbrev pub along_pointer :
    Handle → Op → Option (List Text) → Changed → (Text → Handle → Attempt) → Changed
along_pointer n op none whole f = failure (in_path (bad_pointer op))
along_pointer n op (some []) whole f = whole
along_pointer n op (some (t ∷ ts)) whole f =
    change_at n (at_index_of op (length ts)) (f (last t ts))
      (pointer_parent (elems_of n) n.node op (t ∷ ts))

-- `RemoveAt`
pub remove_at : Handle → List Segment → Changed
unfolding remove_segment
remove_at n path = along_path n remove path (no_path remove) remove_segment

-- `RemoveJSONPointer`
pub remove_json_pointer : Handle → Text → Changed
unfolding remove_token
remove_json_pointer n pointer =
    along_pointer n remove (parse_json_pointer pointer) (no_path remove) remove_token

module _ (u : Unicode) (rune_len : ℕ → ℕ) where
  -- `Replace` of the receiver
  abbrev pub replace_whole : Handle → Handle → Changed
  replace_whole n value = landed n.node [] alone (replace_with_node u rune_len n value)

  -- `ReplaceAt`
  pub replace_at : Handle → Handle → List Segment → Changed
  unfolding replace_segment
  replace_at n value path =
      along_path n replace path (replace_whole n value) (replace_segment u rune_len value)

  -- `InsertAt`
  pub insert_at : Handle → Handle → List Segment → Changed
  unfolding insert_segment
  insert_at n value path =
      along_path n insert path (no_path insert) (insert_segment u rune_len value)

  -- `ReplaceJSONPointer`
  pub replace_json_pointer : Handle → Text → Handle → Changed
  unfolding replace_token
  replace_json_pointer n pointer value =
      along_pointer n replace (parse_json_pointer pointer) (replace_whole n value)
        (replace_token u rune_len value)

  -- `InsertJSONPointer`
  pub insert_json_pointer : Handle → Text → Handle → Changed
  unfolding insert_token
  insert_json_pointer n pointer value =
      along_pointer n insert (parse_json_pointer pointer) (no_path insert)
        (insert_token u rune_len value)
