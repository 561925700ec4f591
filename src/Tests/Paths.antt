-- ===== src/Tests/Paths.antt =====
-- The walks by path and by pointer at concrete documents.
use roundtrip.Access.Selects.{Pointed, json_pointer-Pointed}
use roundtrip.Access.Evaluates.{select_segment}
use roundtrip.Access.{remove, insert, replace, field, access, json_pointer}
use roundtrip.Base.{◌≡◌, refl, codes, [], ◌∷◌, some}
use roundtrip.Json.{Json, members, items, number, item, none_left, member, end, json_of}
use roundtrip.Syntax.{json5, strict}
use roundtrip.TokenList.{value_at}
use roundtrip.Tree.{child}
use roundtrip.Changes.Places.{ByPointer, Placed, changes-ByPointer, changes-Placed}
use roundtrip.Changes.{
  no_path, remove_token, insert_token, replace_token, replace_whole, remove_segment, insert_segment,
  replace_segment, remove_json_pointer, insert_json_pointer, replace_json_pointer, remove_at,
  insert_at, replace_at,
}
use roundtrip.Chars.{ascii}
use roundtrip.Tests.Editing.{
  array_handle, object_handle, one_handle, array_elems, array_root, object_elems, object_root,
}

-- the value of `[1,2]`, and of `{a: 1}`
abbrev pub array_value : Json
array_value = items (item (number (codes "1")) (item (number (codes "2")) none_left))

abbrev pub object_value : Json
object_value = members (member (codes "a") (number (codes "1")) end)

pub array_root-value : json_of array_elems strict array_root ≡ some array_value
unfolding json_of child value_at
array_root-value = refl

pub object_root-value : json_of object_elems json5 object_root ≡ some object_value
unfolding json_of child value_at
object_root-value = refl

json_pointer-Pointed_example :
    Pointed array_elems strict array_root array_value
      (codes "/1")
      (json_pointer array_elems array_root (codes "/1"))
json_pointer-Pointed_example =
    json_pointer-Pointed array_elems strict array_root array_value (codes "/1") array_root-value

changes-ByPointer_example :
    ByPointer array_handle array_value strict
      (codes "/1")
      remove
      (no_path remove)
      remove_token
      (remove_json_pointer array_handle (codes "/1"))
    × ByPointer array_handle array_value strict
        (codes "/1")
        insert
        (no_path insert)
        (insert_token ascii (λ _. 1) one_handle)
        (insert_json_pointer ascii (λ _. 1) array_handle (codes "/1") one_handle)
    × ByPointer array_handle array_value strict
        (codes "/1")
        replace
        (replace_whole ascii (λ _. 1) array_handle one_handle)
        (replace_token ascii (λ _. 1) one_handle)
        (replace_json_pointer ascii (λ _. 1) array_handle (codes "/1") one_handle)
changes-ByPointer_example =
    changes-ByPointer ascii (λ _. 1) array_handle one_handle array_value strict (codes "/1")
      array_root-value

changes-Placed_example :
    Placed object_handle object_value json5 select_segment remove access
      (no_path remove)
      remove_segment
      (field (codes "a") ∷ [])
      (remove_at object_handle (field (codes "a") ∷ []))
    × Placed object_handle object_value json5 select_segment insert access
        (no_path insert)
        (insert_segment ascii (λ _. 1) one_handle)
        (field (codes "a") ∷ [])
        (insert_at ascii (λ _. 1) object_handle one_handle (field (codes "a") ∷ []))
    × Placed object_handle object_value json5 select_segment replace access
        (replace_whole ascii (λ _. 1) object_handle one_handle)
        (replace_segment ascii (λ _. 1) one_handle)
        (field (codes "a") ∷ [])
        (replace_at ascii (λ _. 1) object_handle one_handle (field (codes "a") ∷ []))
changes-Placed_example =
    changes-Placed ascii (λ _. 1) object_handle one_handle object_value json5
      (field (codes "a") ∷ []) object_root-value
