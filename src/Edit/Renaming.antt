-- ===== src/Edit/Renaming.antt =====
-- json/meta.go: `RenameObjectField`.
use roundtrip.Base.{
  ℕ, zero, suc, ◌+◌, ◌<◌, ◌≡◌, refl, ◌⊎◌, inl, inr, Text, List, [], ◌∷◌, ◌++◌, true, false, not,
  Option, none, some, ◌==◌, if◌then◌else◌, text_eq, All, arith, Bool-cases,
}
use roundtrip.Decoder.{Node, node, Nodes, nil, cons, start_of, end_of}
use roundtrip.Edit.Replace.{Older, Older-left}
use roundtrip.Edit.{
  Edited, done, failed, panicked, edited, elems_of, children, with_children, is_object,
  wrong_node_type, object_field_not_found, object_field_exists, encode_string,
}
use roundtrip.Quote.RoundTrip.{unquote_string-append_text}
use roundtrip.Quote.{append_text}
use roundtrip.Syntax.{json5}
use roundtrip.Token.{string, token}
use roundtrip.TokenList.Ranges.{Range, cut, replace_range, replaced}
use roundtrip.TokenList.{Elem, TokenList, value_at}
use roundtrip.Tree.{Handle, child, type_of, object_field_key, object_field_index, field_name}

abbrev pub set_child : Nodes → ℕ → Node → Nodes
set_child nil i m = nil
set_child (cons n ns) zero m = cons m ns
set_child (cons n ns) (suc i) m = cons n (set_child ns i m)

abbrev pub with_key : Node → Node → Node
with_key (node t s e cs) key = node t s e (set_child cs 0 key)

key_replaced : Handle → ℕ → Node → Node × TokenList → Option Node → Edited
key_replaced n i field (new_key, src) none = panicked
key_replaced n i field (new_key, src) (some key) =
    edited (with_children n.node (set_child (children n) i (with_key field new_key)))
      (replace_range n.owner.tokens (start_of key) (end_of key) src)

abbrev unless_taken : Option (Option (ℕ × Node)) → Edited → Edited
unless_taken none k = panicked
unless_taken (some (some f)) k = failed object_field_exists
unless_taken (some none) k = k

-- behind the search for the old name
rename_found : Handle → Text → Text → Option (Option (ℕ × Node)) → Edited
unfolding key_replaced
rename_found n old new none = panicked
rename_found n old new (some none) = failed object_field_not_found
rename_found n old new (some (some (i, field))) =
    let rename =
      key_replaced n i field (encode_string n.owner.tokens.fresh new) (object_field_key field) in
    if not (text_eq old new)
    then unless_taken (object_field_index (elems_of n) new (children n)) rename
    else rename

-- `RenameObjectField`
pub rename_object_field : Handle → Text → Text → Edited
unfolding rename_found
rename_object_field n old new =
    if not (is_object (type_of n.node))
    then failed wrong_node_type
    else rename_found n old new (object_field_index (elems_of n) old (children n))

value_at-new :
    (xs : List Elem) (e : Elem) (ys : List Elem)
    → All (λ x. x.id < e.id) xs
    → value_at (xs ++ e ∷ ys) e.id ≡ some e.value
unfolding value_at
value_at-new [] e ys o = ground arith
value_at-new (x ∷ xs) e ys (l, o) =
    let other : (x.id == e.id) ≡ false = ground arith in rw other (value_at-new xs e ys o)

key_of_with_key :
    (field key new : Node)
    → object_field_key field ≡ some key
    → object_field_key (with_key field new) ≡ some new
unfolding child
key_of_with_key (node t s e nil) key new h = cc
key_of_with_key (node t s e (cons c cs)) key new h = refl

module _ (n : Handle) (new : Text) (i : ℕ) (field key : Node) (r : Range)
    (has_key : object_field_key field ≡ some key)
    (ck : cut (elems_of n) (start_of key) (end_of key) ≡ some r)
    (old_addresses : Older (elems_of n) n.owner.tokens.fresh) where
  abbrev new_elem : Elem
  new_elem = record { id = n.owner.tokens.fresh; value = token string (append_text new true) }

  abbrev pub renamed_field : Node
  renamed_field = with_key field (encode_string n.owner.tokens.fresh new).0

  abbrev pub renamed_list : TokenList
  renamed_list = record { elems = r.left ++ (new_elem ∷ r.right); fresh = n.owner.tokens.fresh + 1 }

  abbrev pub renamed : Edited
  renamed = done renamed_list (with_children n.node (set_child (children n) i renamed_field))

  key_replaced-renamed :
      key_replaced n i field (encode_string n.owner.tokens.fresh new) (object_field_key field)
      ≡ renamed
  unfolding key_replaced replace_range replaced
  key_replaced-renamed = rw (has_key, ck) refl

  renamed_name : field_name renamed_list.elems renamed_field ≡ some new
  renamed_name =
      rw
        (
          key_of_with_key field key (encode_string n.owner.tokens.fresh new).0 has_key,
          value_at-new r.left new_elem r.right
              (Older-left (elems_of n) (start_of key) (end_of key) r _ ck old_addresses),
        )
        (unquote_string-append_text new true json5)

  -- The object has a field of the old name at the index `i`, whose key is in order in the token list, and
  -- the new name is the old one, or no field has it; the addresses of the document's elements are in use.
  -- `RenameObjectField` puts one element with the quoted new name in place of the key's elements, leaves
  -- all other elements as they are, exchanges the key in the tree, and the field's name that is read from
  -- the new token list is the new name.
  pub rename_object_field-renamed :
      (old : Text)
      → is_object (type_of n.node) ≡ true
      → object_field_index (elems_of n) old (children n) ≡ some (some (i, field))
      → (text_eq old new ≡ true) ⊎ (object_field_index (elems_of n) new (children n) ≡ some none)
      → (rename_object_field n old new ≡ renamed)
        × (field_name renamed_list.elems renamed_field ≡ some new)
  unfolding rename_object_field rename_found
  rename_object_field-renamed old k f (inl same) =
      (rw (k, f, same) key_replaced-renamed, renamed_name)
  rename_object_field-renamed old k f (inr free) =
      (by_cases (Bool-cases (text_eq old new)), renamed_name)
    where
      by_cases :
          (text_eq old new ≡ true) ⊎ (text_eq old new ≡ false)
          → rename_object_field n old new ≡ renamed
      by_cases (inl y) = rw (k, f, y) key_replaced-renamed
      by_cases (inr m) = rw (k, f, m, free) key_replaced-renamed
