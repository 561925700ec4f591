-- ===== src/Patch.antt =====
-- json/patch.go: RFC 6902 patches whose values are nodes, applied to a document. A patch without a value
-- has any node in its place.
pub mod Runs
pub mod Compared
use roundtrip.Access.{
  edit, Op, add, PathError, Reached, found, lost, crashed, Looked, object_field_at, pointer_parent,
  bad_pointer, json_pointer,
}
use roundtrip.Base.{
  ℕ, ◌+◌, Text, codes, List, [], ◌∷◌, ◌++◌, Bool, true, false, Option, none, some, if◌then◌else◌,
  length, text_eq, has_prefix,
}
use roundtrip.Changes.{
  Failure, alone, in_path, Changed, changed, failure, crash, starved, landed, Attempt, attempt,
  deny, on_index, handle_at, at_index_of, last, replace_object_field, replace_whole,
  remove_json_pointer, replace_json_pointer,
}
use roundtrip.Chars.{Unicode}
use roundtrip.Decoder.{Node}
use roundtrip.Document.{Meta}
use roundtrip.Edit.{
  Edited, panicked, wrong_node_type, elems_of, children, is_object, is_array, replace_with_node,
  insert_array_value_node, insert_object_field_node,
}
use roundtrip.Equality.{json_nodes_equal}
use roundtrip.Pointer.{parse_json_pointer, pointer_array_index}
use roundtrip.TokenList.{TokenList}
use roundtrip.Tree.{Handle, root, clone, count, type_of, on_some}

-- `source` is the pointer of the field `From`
pub record Patch : Type 0 where
  pub op : Text
  pub path : Text
  pub source : Text
  pub value : Handle

-- the words of the `switch` on the operation
pub data Operation : Type 0 where
  adding removing replacing moving copying testing unknown : Operation

abbrev pub operation : Text → Operation
operation s =
    if text_eq s (codes "add")
    then adding
    else if text_eq s (codes "remove")
    then removing
    else if text_eq s (codes "replace")
    then replacing
    else if text_eq s (codes "move")
    then moving
    else if text_eq s (codes "copy")
    then copying
    else if text_eq s (codes "test")
    then testing
    else unknown

-- why an operation is refused
pub data Rejection : Type 0 where
  invalid_patch_operation patch_test_failed invalid_pointer : Rejection
  in_edit : Failure → Rejection

pub data Patched : Type 0 where
  patched : Meta → Patched
  rejected : Rejection → Patched
  patch_crash patch_starved : Patched

abbrev pub if_parsed : Option (List Text) → Option Rejection → Option Rejection
if_parsed none k = some invalid_pointer
if_parsed (some tokens) k = k

abbrev pub validate_operation : Operation → Text → Option Rejection
validate_operation moving source = if_parsed (parse_json_pointer source) none
validate_operation copying source = if_parsed (parse_json_pointer source) none
validate_operation unknown source = some invalid_patch_operation
validate_operation _ source = none

-- `validatePatch`, with `none` where it finds no error; the empty operation is unknown
unfoldable pub validate_patch : Patch → Option Rejection
validate_patch p =
    if text_eq p.op []
    then some invalid_patch_operation
    else if_parsed (parse_json_pointer p.path) (validate_operation (operation p.op) p.source)

-- `cloneMetaFromNode`; `none` is a panic
unfoldable pub clone_meta_from_node : Handle → Option Meta
clone_meta_from_node n =
    on_some (clone n.owner.tokens.fresh (elems_of n) n.node)
      λ (m, ts). some (record { syntax = n.owner.syntax; tokens = ts; root = m })

abbrev pub patched_by : Meta → Changed → Patched
patched_by m (changed ts n) = patched (record m { tokens = ts; root = n })
patched_by m (failure f) = rejected (in_edit f)
patched_by m crash = patch_crash
patched_by m starved = patch_starved

-- behind `JSONPointer`: with the clone of what it finds
abbrev pub with_clone : Meta → Reached → (Meta → Patched) → Patched
with_clone m (lost e) k = rejected (in_edit (in_path e))
with_clone m crashed k = patch_crash
with_clone m (found is n) k = cloned (clone_meta_from_node (handle_at (root m) n))
  where
    cloned : Option Meta → Patched
    cloned none = patch_crash
    cloned (some c) = k c

abbrev pub then_patch : Patched → (Meta → Patched) → Patched
then_patch (patched m) k = k m
then_patch r k = r

abbrev pub test_result : Meta → Option Bool → Patched
test_result m none = patch_crash
test_result m (some true) = patched m
test_result m (some false) = rejected patch_test_failed

abbrev pub test_found : Meta → Handle → Reached → Patched
test_found m value (found is n) =
    test_result m
      (json_nodes_equal m.tokens.elems (elems_of value) m.syntax value.owner.syntax n value.node)
test_found m value (lost e) = rejected (in_edit (in_path e))
test_found m value crashed = patch_crash

abbrev pub checked : Option Rejection → Patched → Patched
checked none r = r
checked (some e) r = rejected e

-- what the operations end with: the error has the index of its operation
pub data Applied : Type 0 where
  applied : Meta → Applied
  stopped : ℕ → Rejection → Applied
  crashed_at starved_at : ℕ → Applied

abbrev pub next_operation : ℕ → Patched → (Meta → Applied) → Applied
next_operation k (patched m) more = more m
next_operation k (rejected e) more = stopped k e
next_operation k patch_crash more = crashed_at k
next_operation k patch_starved more = starved_at k

-- what `Patch` of a node ends with
pub data NodePatched : Type 0 where
  replaced : Edited → NodePatched
  unchanged : Applied → NodePatched

module _ (u : Unicode) (rune_len : ℕ → ℕ) where
  -- the field of that name is replaced, or inserted where there is none
  abbrev pub upsert : Handle → Text → Handle → Looked → Edited
  upsert p token value none = panicked
  upsert p token value (some (some f)) = replace_object_field u rune_len p token value
  upsert p token value (some none) = insert_object_field_node u rune_len p token value

  -- the `switch` of `patchAdd`
  unfoldable pub add_token : Handle → Text → Handle → Attempt
  add_token value token p =
      if is_object (type_of p.node)
      then attempt (upsert p token value (object_field_at (elems_of p) p.node token))
      else if is_array (type_of p.node)
      then (if text_eq token (codes "-")
          then attempt (insert_array_value_node u rune_len p (count (children p)) value)
          else on_index (pointer_array_index token false)
              (λ i. attempt (insert_array_value_node u rune_len p i value)))
      else deny (edit wrong_node_type)

  -- the errors of the changes themselves are returned as they are
  abbrev pub added : Node → List ℕ → ℕ → Attempt → Changed
  added n is k (attempt r) = landed n is alone r
  added n is k (deny c) = failure (at_index_of add k c)

  abbrev pub add_at : Handle → ℕ → (Handle → Attempt) → Reached → Changed
  add_at n k f (found is m) = added n.node is k (f (handle_at n m))
  add_at n k f (lost e) = failure (in_path e)
  add_at n k f crashed = crash

  abbrev pub add_tokens : Handle → Handle → Option (List Text) → Changed
  add_tokens n value none = failure (in_path (bad_pointer add))
  add_tokens n value (some []) = replace_whole u rune_len n value
  add_tokens n value (some (t ∷ ts)) =
      add_at n (length ts) (add_token value (last t ts))
        (pointer_parent (elems_of n) n.node add (t ∷ ts))

  -- `patchAdd`
  unfoldable pub patch_add : Meta → Text → Handle → Patched
  unfolding add_token
  patch_add m pointer value = patched_by m (add_tokens (root m) value (parse_json_pointer pointer))

  -- `patchMove`
  unfoldable pub patch_move : Meta → Text → Text → Patched
  unfolding patch_add
  patch_move m source path =
      if text_eq source path
      then patched m
      else if has_prefix path (source ++ codes "/")
      then rejected invalid_patch_operation
      else with_clone m (json_pointer (elems_of (root m)) m.root source) λ c.
        then_patch (patched_by m (remove_json_pointer (root m) source))
          λ m'. patch_add m' path (root c)

  -- the `switch` of `applyPatchOperation`
  abbrev pub apply_operation : Operation → Meta → Patch → Patched
  apply_operation adding m p = patch_add m p.path p.value
  apply_operation removing m p = patched_by m (remove_json_pointer (root m) p.path)
  apply_operation replacing m p =
      patched_by m (replace_json_pointer u rune_len (root m) p.path p.value)
  apply_operation moving m p = patch_move m p.source p.path
  apply_operation copying m p =
      with_clone m (json_pointer m.tokens.elems m.root p.source) λ c. patch_add m p.path (root c)
  apply_operation testing m p = test_found m p.value (json_pointer m.tokens.elems m.root p.path)
  apply_operation unknown m p = rejected invalid_patch_operation

  -- `applyPatchOperation`
  unfoldable pub apply_patch_operation : Meta → Patch → Patched
  unfolding patch_add patch_move
  apply_patch_operation m p = apply_operation (operation p.op) m p

  -- `applyPatch`, where `k` operations are done
  unfoldable pub apply_patch : ℕ → Meta → List Patch → Applied
  unfolding validate_patch apply_patch_operation
  apply_patch k m [] = applied m
  apply_patch k m (p ∷ ps) =
      next_operation k (checked (validate_patch p) (apply_patch_operation m p))
        λ m'. apply_patch (k + 1) m' ps

  abbrev pub apply_to_clone : List Patch → Option Meta → Applied
  apply_to_clone ps none = crashed_at 0
  apply_to_clone ps (some working) = apply_patch 0 working ps

  -- `Patch` of a document: what becomes of it, where no operation fails
  unfoldable pub patch_meta : Meta → List Patch → Applied
  unfolding clone_meta_from_node
  patch_meta m ps = apply_to_clone ps (clone_meta_from_node (root m))

  abbrev pub replace_applied : Handle → Applied → NodePatched
  replace_applied n (applied m) = replaced (replace_with_node u rune_len n (root m))
  replace_applied n r = unchanged r

  -- `Patch` of a node
  unfoldable pub patch_node : Handle → List Patch → NodePatched
  unfolding clone_meta_from_node
  patch_node n ps = replace_applied n (apply_to_clone ps (clone_meta_from_node n))
