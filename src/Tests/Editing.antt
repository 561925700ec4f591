-- ===== src/Tests/Editing.antt =====
-- The changes of trees at concrete documents.
use roundtrip.Base.{ℕ, inr, arith, ◌≡◌, refl, Text, codes, List, [], ◌∷◌, none, some, text_eq}
use roundtrip.Chars.{ascii}
use roundtrip.Decoder.{Node, node, nil, cons, leaf}
use roundtrip.Document.{Meta}
use roundtrip.Edit.Insertion.Elements.{
  ElementResult, FieldResult, insert_array_value_node-ElementResult,
  insert_object_field_node-FieldResult,
}
use roundtrip.Edit.Removal.Layout.{
  Takes, followed, alone, remove_array_value-without, remove_object_field-without,
}
use roundtrip.Edit.Removal.{comma_before, remove_array_value, remove_object_field}
use roundtrip.Edit.Renaming.{
  rename_object_field, renamed, renamed_list, renamed_field, rename_object_field-renamed,
}
use roundtrip.Edit.Replace.{Older, ReplaceResult, replace_with_node-ReplaceResult}
use roundtrip.Edit.{done, replace_with_node, insert_array_value_node, insert_object_field_node}
use roundtrip.Linked.Segments.{Distinct}
use roundtrip.Syntax.{json5, strict}
use roundtrip.Token.{
  anchor, colon, comma, delim, identifier, number, whitespace, object, object_field, array,
  array_element, number_node, string_node, TokenType, token,
}
use roundtrip.TokenList.Ranges.{Range, cut, through, behind}
use roundtrip.TokenList.{Elem, TokenList, values, value_at}
use roundtrip.Tests.{ascii-IsUnicode}
use roundtrip.Tree.Clones.{Within, AllWithin, bytes-clone}
use roundtrip.Tree.{
  Handle, bytes, clone, object_field_index, field_value_prefix, prefix_from, field_name, child,
}

abbrev pub elem : ℕ → TokenType → Text → Elem
elem i t s = record { id = i; value = token t s }

-- the array `[1,2]`
abbrev pub array_elems : List Elem
array_elems =
    elem 0 delim (codes "[")
    ∷ elem 1 anchor []
    ∷ elem 2 number (codes "1")
    ∷ elem 3 anchor []
    ∷ elem 4 comma (codes ",")
    ∷ elem 5 anchor []
    ∷ elem 6 number (codes "2")
    ∷ elem 7 anchor []
    ∷ elem 8 delim (codes "]")
    ∷ []

abbrev pub array_root : Node
array_root = node array 0 8 (
    cons (node array_element 1 3 (cons (leaf number_node 2) nil))
      (cons (node array_element 5 7 (cons (leaf number_node 6) nil)) nil))

abbrev pub array_document : Meta
array_document = record {
  syntax = strict;
  tokens = record { elems = array_elems; fresh = 9 };
  root = array_root;
}

-- the object `{a: 1}` of JSON5
abbrev pub object_elems : List Elem
object_elems =
    elem 0 delim (codes "{")
    ∷ elem 1 anchor []
    ∷ elem 2 identifier (codes "a")
    ∷ elem 3 colon (codes ":")
    ∷ elem 4 whitespace (codes " ")
    ∷ elem 5 number (codes "1")
    ∷ elem 6 anchor []
    ∷ elem 7 delim (codes "}")
    ∷ []

abbrev pub field_a : Node
field_a = node object_field 1 6 (cons (leaf string_node 2) (cons (leaf number_node 5) nil))

abbrev pub object_root : Node
object_root = node object 0 7 (cons field_a nil)

abbrev pub object_document : Meta
object_document = record {
  syntax = json5;
  tokens = record { elems = object_elems; fresh = 8 };
  root = object_root;
}

abbrev pub array_handle : Handle
array_handle = record { owner = array_document; node = array_root }

abbrev pub one_handle : Handle
one_handle = record { owner = array_document; node = leaf number_node 2 }

abbrev pub object_handle : Handle
object_handle = record { owner = object_document; node = object_root }

abbrev pub range : List Elem → List Elem → List Elem → Range
range xs ys zs = record { left = xs; inside = ys; right = zs }

-- the element `1` of the array, and the array itself, as ranges
abbrev pub one_range : Range
one_range =
    range (elem 0 delim (codes "[") ∷ elem 1 anchor [] ∷ []) (elem 2 number (codes "1") ∷ []) (
      elem 3 anchor []
      ∷ elem 4 comma (codes ",")
      ∷ elem 5 anchor []
      ∷ elem 6 number (codes "2")
      ∷ elem 7 anchor []
      ∷ elem 8 delim (codes "]")
      ∷ [])

pub one_cut : cut array_elems 2 2 ≡ some one_range
unfolding cut through
one_cut = refl

pub object_cut : cut object_elems 0 7 ≡ some (range [] object_elems [])
unfolding cut through
object_cut = refl

pub object-Within : Within object_elems object_root
unfolding Within AllWithin
object-Within = (refl, refl, ((refl, refl, ((refl, refl, tt), ((refl, refl, tt), tt))), tt))

pub array-Within : Within array_elems array_root
unfolding Within AllWithin
array-Within =
    (refl, refl, ((refl, refl, ((refl, refl, tt), tt)), ((refl, refl, ((refl, refl, tt), tt)), tt)))

bytes-clone_example :
    (m : Node) × (ts : TokenList) × (clone 20 object_elems object_root ≡ some (m, ts))
    × (values ts.elems ≡ values object_elems)
    × (bytes ts.elems m ≡ bytes object_elems object_root)
bytes-clone_example =
    bytes-clone 20 object_elems object_root (range [] object_elems []) object_cut object-Within

pub array-Older : Older array_elems 9
array-Older = (
  omega arith,
  (
    omega arith,
    (
      omega arith,
      (omega arith, (omega arith, (omega arith, (omega arith, (omega arith, (omega arith, tt)))))),
    ),
  ),
)

replace_with_node-ReplaceResult_example :
    ReplaceResult ascii
      (λ r. 1)
      one_handle
      object_handle
      one_range
      (range [] object_elems [])
      (replace_with_node ascii (λ r. 1) one_handle object_handle)
replace_with_node-ReplaceResult_example =
    replace_with_node-ReplaceResult ascii ascii-IsUnicode (λ r. 1) one_handle object_handle
      one_range (range [] object_elems []) one_cut object_cut object-Within array-Older

insert_array_value_node-ElementResult_example :
    ElementResult ascii
      (λ r. 1)
      array_handle
      object_handle
      (range [] object_elems [])
      1
      (insert_array_value_node ascii (λ r. 1) array_handle 1 object_handle)
insert_array_value_node-ElementResult_example =
    insert_array_value_node-ElementResult array_handle object_handle (range [] object_elems [])
      object_cut object-Within array-Within ascii ascii-IsUnicode (λ r. 1) 1

not_found : object_field_index object_elems (codes "b") (cons field_a nil) ≡ some none
unfolding object_field_index value_at child text_eq
not_found = refl

pub space_prefix : field_value_prefix object_elems (cons field_a nil) ≡ some (codes " ")
unfolding field_value_prefix prefix_from behind child
space_prefix = refl

insert_object_field_node-FieldResult_example :
    FieldResult ascii
      (λ r. 1)
      object_handle
      object_handle
      (range [] object_elems [])
      (codes "b")
      (codes " ")
      none
      (insert_object_field_node ascii (λ r. 1) object_handle (codes "b") object_handle)
insert_object_field_node-FieldResult_example =
    insert_object_field_node-FieldResult object_handle object_handle (range [] object_elems [])
      object_cut object-Within object-Within ascii ascii-IsUnicode (λ r. 1) (codes "b") (codes " ")
      none not_found space_prefix

-- the elements that the first element of the array takes with it
abbrev taken : List Elem
taken =
    elem 1 anchor [] ∷ elem 2 number (codes "1") ∷ elem 3 anchor [] ∷ elem 4 comma (codes ",") ∷ []

abbrev kept : List Elem
kept =
    elem 5 anchor [] ∷ elem 6 number (codes "2") ∷ elem 7 anchor [] ∷ elem 8 delim (codes "]") ∷ []

first_taken :
    Takes array_root
      (elem 0 delim (codes "[") ∷ [])
      taken
      kept
      (elem 1 anchor [])
      (elem 4 comma (codes ","))
      0
unfolding child
first_taken = followed (elem 5 anchor []) _ refl refl (omega arith) refl refl refl

pub array-Distinct : Distinct array_elems
array-Distinct = (refl, (refl, (refl, (refl, (refl, (refl, (refl, (refl, (refl, tt)))))))))

remove_array_value-without_example :
    remove_array_value array_handle 0
    ≡ done
        (record { elems = elem 0 delim (codes "[") ∷ kept; fresh = 9 })
        (node array 0 8 (cons (node array_element 5 7 (cons (leaf number_node 6) nil)) nil))
remove_array_value-without_example =
    remove_array_value-without array_handle (elem 0 delim (codes "[") ∷ []) taken kept
      (elem 1 anchor []) (elem 4 comma (codes ","))
      (elem 2 number (codes "1") ∷ elem 3 anchor [] ∷ elem 4 comma (codes ",") ∷ [])
      (elem 1 anchor [] ∷ elem 2 number (codes "1") ∷ elem 3 anchor [] ∷ []) refl array-Distinct
      refl refl 0 first_taken refl (omega arith)

abbrev field_elems : List Elem
field_elems =
    elem 1 anchor []
    ∷ elem 2 identifier (codes "a")
    ∷ elem 3 colon (codes ":")
    ∷ elem 4 whitespace (codes " ")
    ∷ elem 5 number (codes "1")
    ∷ elem 6 anchor []
    ∷ []

field_taken :
    Takes object_root
      (elem 0 delim (codes "{") ∷ [])
      field_elems
      (elem 7 delim (codes "}") ∷ [])
      (elem 1 anchor [])
      (elem 6 anchor [])
      0
unfolding child comma_before
field_taken = alone refl refl refl refl refl

pub object-Distinct : Distinct object_elems
object-Distinct = (refl, (refl, (refl, (refl, (refl, (refl, (refl, (refl, tt))))))))

found_a : object_field_index object_elems (codes "a") (cons field_a nil) ≡ some (some (0, field_a))
unfolding object_field_index value_at child text_eq
found_a = refl

remove_object_field-without_example :
    remove_object_field object_handle (codes "a")
    ≡ done
        (record { elems = elem 0 delim (codes "{") ∷ elem 7 delim (codes "}") ∷ []; fresh = 8 })
        (node object 0 7 nil)
remove_object_field-without_example =
    remove_object_field-without object_handle (elem 0 delim (codes "{") ∷ []) field_elems
      (elem 7 delim (codes "}") ∷ []) (elem 1 anchor []) (elem 6 anchor [])
      (elem 2 identifier (codes "a")
        ∷ elem 3 colon (codes ":")
        ∷ elem 4 whitespace (codes " ")
        ∷ elem 5 number (codes "1")
        ∷ elem 6 anchor []
        ∷ [])
      (elem 1 anchor []
        ∷ elem 2 identifier (codes "a")
        ∷ elem 3 colon (codes ":")
        ∷ elem 4 whitespace (codes " ")
        ∷ elem 5 number (codes "1")
        ∷ [])
      refl object-Distinct refl refl 0 field_taken (codes "a") field_a refl found_a

abbrev key_range : Range
key_range =
    range (elem 0 delim (codes "{") ∷ elem 1 anchor [] ∷ []) (elem 2 identifier (codes "a") ∷ []) (
      elem 3 colon (codes ":")
      ∷ elem 4 whitespace (codes " ")
      ∷ elem 5 number (codes "1")
      ∷ elem 6 anchor []
      ∷ elem 7 delim (codes "}")
      ∷ [])

key_cut : cut object_elems 2 2 ≡ some key_range
unfolding cut through
key_cut = refl

object-Older : Older object_elems 8
object-Older = (
  omega arith,
  (
    omega arith,
    (omega arith, (omega arith, (omega arith, (omega arith, (omega arith, (omega arith, tt)))))),
  ),
)

first_key :
    child (cons (leaf string_node 2) (cons (leaf number_node 5) nil)) 0 ≡ some (leaf string_node 2)
unfolding child
first_key = refl

rename_object_field-renamed_example :
    (rename_object_field object_handle (codes "a") (codes "b")
      ≡ renamed object_handle
          (codes "b")
          0
          field_a
          (leaf string_node 2)
          key_range
          first_key
          key_cut
          object-Older)
    × (field_name
          (renamed_list object_handle
            (codes "b")
            0
            field_a
            (leaf string_node 2)
            key_range
            first_key
            key_cut
            object-Older).elems
          (renamed_field object_handle
            (codes "b")
            0
            field_a
            (leaf string_node 2)
            key_range
            first_key
            key_cut
            object-Older)
        ≡ some (codes "b"))
rename_object_field-renamed_example =
    rename_object_field-renamed object_handle (codes "b") 0 field_a (leaf string_node 2) key_range
      first_key key_cut object-Older (codes "a") refl found_a (inr not_found)
