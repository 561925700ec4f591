-- ===== src/Tests/Values.antt =====
-- The insertions at concrete documents, as changes of values.
use roundtrip.Changes.Insertion.{Prefixed, InsertResult, insert_json_pointer-InsertResult}
use roundtrip.Changes.{insert_json_pointer}
use roundtrip.Pointer.{parse_json_pointer, split, unescape_from}
use roundtrip.Decoder.{leaf}
use roundtrip.Tree.{child}
use roundtrip.Token.{number_node}
use roundtrip.Base.{zero, suc, ◌∷◌, ◌≡◌, refl, codes, some, arith, []}
use roundtrip.Chars.{ascii}
use roundtrip.Edit.Insertion.Members.{MemberResult, insert_object_field_node-MemberResult}
use roundtrip.Edit.Insertion.Values.{ItemResult, insert_array_value_node-ItemResult}
use roundtrip.Edit.Replace.{Older}
use roundtrip.Edit.{insert_array_value_node, insert_object_field_node}
use roundtrip.Json.{number, member, end, item, none_left, json_of}
use roundtrip.Syntax.{json5, strict}
use roundtrip.Tests.Editing.{
  array_elems, object_elems, object_root, object_handle, array_handle, one_handle, range, one_range,
  one_cut, object_cut, object-Within, array-Within, array-Older, array-Distinct, object-Distinct,
  space_prefix,
}
use roundtrip.Tests.Paths.{object_value, array_root-value, object_root-value}
use roundtrip.Tests.{ascii-IsUnicode}
use roundtrip.TokenList.{value_at}
use roundtrip.Tree.Clones.{Within, AllWithin}

one-Within : Within one_range.inside one_handle.node
unfolding Within AllWithin
one-Within = (refl, refl, tt)

pub one-value : json_of array_elems strict one_handle.node ≡ some (number (codes "1"))
unfolding json_of value_at
one-value = refl

insert_array_value_node-ItemResult_example :
    ItemResult ascii
      (λ r. 1)
      array_handle
      one_handle
      strict
      one_range
      (number (codes "1"))
      1
      (item (number (codes "1")) (item (number (codes "2")) none_left))
      (insert_array_value_node ascii (λ r. 1) array_handle 1 one_handle)
insert_array_value_node-ItemResult_example =
    insert_array_value_node-ItemResult ascii ascii-IsUnicode (λ r. 1) array_handle one_handle strict
      one_range (number (codes "1")) one_cut one-Within array-Distinct one-value array-Within
      array-Older 1 (item (number (codes "1")) (item (number (codes "2")) none_left))
      array_root-value

object-Older : Older object_elems 8
object-Older = (
  omega arith,
  (
    omega arith,
    (omega arith, (omega arith, (omega arith, (omega arith, (omega arith, (omega arith, tt)))))),
  ),
)

insert_object_field_node-MemberResult_example :
    MemberResult ascii
      (λ r. 1)
      object_handle
      object_handle
      json5
      (range [] object_elems [])
      object_value
      (codes "b")
      (member (codes "a") (number (codes "1")) end)
      (insert_object_field_node ascii (λ r. 1) object_handle (codes "b") object_handle)
insert_object_field_node-MemberResult_example =
    insert_object_field_node-MemberResult ascii ascii-IsUnicode (λ r. 1) object_handle object_handle
      json5 (range [] object_elems []) object_value object_cut object-Within object-Distinct
      object_root-value object-Within object-Older (codes "b") (codes " ")
      (member (codes "a") (number (codes "1")) end) object_root-value space_prefix

root_prefixed :
    Prefixed ascii ascii-IsUnicode
      (λ r. 1)
      object_handle
      object_handle
      json5
      (range [] object_elems [])
      object_value
      object_cut
      object-Within
      object-Distinct
      object_root-value
      object-Older
unfolding child
root_prefixed p [] h o = let q : object_root ≡ p = cc h in (codes " ", rw (← q) space_prefix)
root_prefixed p (zero ∷ []) h o = let q : leaf number_node 5 ≡ p = cc h in cc (rw (← q) at o)
root_prefixed p (zero ∷ j ∷ is) h o = cc h
root_prefixed p (suc i ∷ is) h o = cc h

one_token : parse_json_pointer (codes "/b") ≡ some (codes "b" ∷ [])
unfolding parse_json_pointer split unescape_from
one_token = refl

insert_json_pointer-InsertResult_example :
    InsertResult ascii ascii-IsUnicode
      (λ r. 1)
      object_handle
      object_handle
      json5
      (range [] object_elems [])
      object_value
      object_cut
      object-Within
      object-Distinct
      object_root-value
      object-Older
      (codes "b" ∷ [])
      object_value
      (insert_json_pointer ascii (λ r. 1) object_handle (codes "/b") object_handle)
insert_json_pointer-InsertResult_example =
    insert_json_pointer-InsertResult ascii ascii-IsUnicode (λ r. 1) object_handle object_handle
      json5 (range [] object_elems []) object_value object_cut object-Within object-Distinct
      object_root-value object-Older (codes "/b") (codes "b" ∷ []) object_value one_token
      object_root-value object-Within root_prefixed
