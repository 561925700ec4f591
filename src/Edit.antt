-- ===== src/Edit.antt =====
-- json/meta.go: the changes of a tree by values that are nodes themselves. A node is changed in its
-- place, so that a change returns the new token list of the document and the node as it is then. What
-- is made on the way has addresses from the document's `fresh` on.
pub mod Replace
pub mod Insertion
pub mod Removal
pub mod Renaming
use roundtrip.Base.{
  ℕ, zero, suc, ◌+◌, ◌-◌, Text, codes, List, [], ◌∷◌, ◌++◌, Bool, true, false, Option, none, some,
  ◌==◌, if◌then◌else◌, map, not, ltb,
}
use roundtrip.Chars.{Unicode}
use roundtrip.Decoder.{
  Node, node, Nodes, nil, cons, add_child, leaf, start_of, end_of, object_field_node,
  array_element_node, ParseErrorKind, Result, ok, parse_error, panic, out_of_fuel,
}
use roundtrip.Document.{Meta, decoder_with, decode_meta}
use roundtrip.Lexer.{Input}
use roundtrip.Quote.{append_text}
use roundtrip.Syntax.{SyntaxOptions}
use roundtrip.Token.{
  TokenType, anchor, comma, colon, whitespace, string, NodeType, object, array, string_node, Token,
  token,
}
use roundtrip.TokenList.Ranges.{
  behind, ahead, replace_range, insert_list_after, push_front, push_front_list, push_back_list,
}
use roundtrip.TokenList.{Elem, TokenList, new_list, push_back}
use roundtrip.Tree.{
  Handle, bytes, clone, count, child, children_of, type_of, object_field_index, gap_tokens,
  leading_gap, field_value_prefix, on_some,
}

pub data EditError : Type 0 where
  wrong_node_type object_field_not_found object_field_exists array_index_out_of_range : EditError
  invalid_value : ParseErrorKind → Token → EditError

pub data Edited : Type 0 where
  done : TokenList → Node → Edited
  failed : EditError → Edited
  panicked : Edited
  no_fuel : Edited

abbrev pub edited : Node → Option TokenList → Edited
edited n none = panicked
edited n (some ts) = done ts n

abbrev pub elems_of : Handle → List Elem
elems_of n = n.owner.tokens.elems

abbrev pub children : Handle → Nodes
children n = children_of n.node

abbrev pub with_children : Node → Nodes → Node
with_children (node t s e _) cs = node t s e cs

abbrev pub is_object : NodeType → Bool
is_object object = true
is_object _ = false

abbrev pub is_array : NodeType → Bool
is_array array = true
is_array _ = false

-- what is pushed one after the other into a list that is made after `fresh` others
abbrev pub push_all : TokenList → List Token → TokenList
push_all ts [] = ts
push_all ts (t ∷ more) = push_all (push_back ts t).1 more

abbrev pub list_of : ℕ → List Token → TokenList
list_of fresh values = push_all (new_list fresh) values

-- `tokens.InsertListAfter(tokens.Head, gap)` behind `tokens.PushFront` of a comma
abbrev pub behind_comma : TokenList → List Token → TokenList
behind_comma ts gap =
    let src = list_of (ts.fresh + 1) gap in
    record {
      elems = record { id = ts.fresh; value = token comma (codes ",") } ∷ src.elems ++ ts.elems;
      fresh = src.fresh;
    }

-- `tokens.PushFrontList(gap)`
abbrev pub behind_gap : TokenList → List Token → TokenList
behind_gap ts gap = push_front_list ts (list_of ts.fresh gap)

abbrev pub with_comma : TokenList → TokenList
with_comma ts = (push_back ts (token comma (codes ","))).1

-- `insert` of the slice of children
abbrev pub insert_child : Nodes → ℕ → Node → Nodes
insert_child ns zero n = cons n ns
insert_child nil (suc i) n = cons n nil
insert_child (cons m ns) (suc i) n = cons m (insert_child ns i n)

-- `encode` of a string, which is one token
abbrev pub encode_string : ℕ → Text → Node × TokenList
encode_string fresh s =
    let (i, ts) = push_back (new_list fresh) (token string (append_text s true)) in
    (leaf string_node i, ts)

-- the anchors round the tokens of a child, and the child
abbrev pub anchored : (ℕ → ℕ → Node) → TokenList → Node × TokenList
anchored make ts =
    let (s, ts1) = push_front ts (token anchor []) in
    let (e, ts2) = push_back ts1 (token anchor []) in (make s e, ts2)

-- the `switch` of the insertions: the tokens of the child with a gap and a comma, and their place
pub spliced : Handle → ℕ → Node → ℕ → Option TokenList → Edited
spliced n i new mark none = panicked
spliced n i new mark (some src) =
    edited (with_children n.node (insert_child (children n) i new))
      (insert_list_after n.owner.tokens mark src)

abbrev at_mark : Handle → ℕ → Node → Option Node → Option TokenList → Edited
at_mark n i new none src = panicked
at_mark n i new (some p) src = spliced n i new (end_of p) src

pub insert_child_at : Handle → ℕ → Node × TokenList → Edited
unfolding spliced
insert_child_at n i (new, ts) =
    let es = elems_of n in
    let len = count (children n) in
    if len == 0
    then spliced n i new (start_of n.node)
        (some (behind_gap ts (gap_tokens es (start_of n.node) (end_of n.node))))
    else if i == 0
    then spliced n i new (start_of n.node) (
        on_some (child (children n) 0)
          λ c. some (with_comma (behind_gap ts (gap_tokens es (start_of n.node) (start_of c)))))
    else at_mark n i new (child (children n) (i - 1)) (
        on_some (leading_gap es n.node (if i == len then len - 1 else i))
          λ gap. some (behind_comma ts gap))

-- the tokens of a field behind its key: the colon, the prefix and the value
abbrev pub field_tokens : Text → TokenList → TokenList
field_tokens [] ts = (push_back ts (token colon (codes ":"))).1
field_tokens (c ∷ cs) ts =
    (push_back (push_back ts (token colon (codes ":"))).1 (token whitespace (c ∷ cs))).1

replaced_by : Handle → Option (Node × TokenList) → Edited
replaced_by n none = panicked
replaced_by n (some (m, src)) =
    edited m (replace_range n.owner.tokens (start_of n.node) (end_of n.node) src)

element_of : Handle → ℕ → Option (Node × TokenList) → Edited
unfolding insert_child_at
element_of n i none = panicked
element_of n i (some (value, ts)) = insert_child_at n i (anchored (array_element_node value) ts)

-- the value is cloned behind the tokens that were made for the key
field_of : Handle → Node → TokenList → Option (Node × TokenList) → Edited
unfolding insert_child_at
field_of n key ts none = panicked
field_of n key ts (some (value, src)) =
    insert_child_at n (count (children n))
      (anchored (object_field_node key value) (push_back_list ts src))

field_behind : Handle → Handle → Node × TokenList → Option Text → Edited
unfolding field_of
field_behind n value (key, ts) none = panicked
field_behind n value (key, ts) (some prefix) =
    let tokens = field_tokens prefix ts in
    field_of n key tokens (clone tokens.fresh (elems_of value) value.node)

-- `decodeMetaWithOptions` reads the bytes as runes, `rune_len` of them for a rune.
module _ (u : Unicode) (rune_len : ℕ → ℕ) where
  abbrev pub input_of : Text → Input
  input_of s = map (λ r. (r, rune_len r)) s

  -- `validateNodeSyntax`
  pub validate_node_syntax : Handle → SyntaxOptions → Result Meta
  validate_node_syntax value opts =
      decode_meta u true (decoder_with (input_of (bytes (elems_of value) value.node)) opts)

  abbrev pub when_valid : Result Meta → Edited → Edited
  when_valid (ok m d) k = k
  when_valid (parse_error e t d) k = failed (invalid_value e t)
  when_valid panic k = panicked
  when_valid out_of_fuel k = no_fuel

  -- `replaceWithNode`
  pub replace_with_node : Handle → Handle → Edited
  unfolding validate_node_syntax replaced_by
  replace_with_node n value =
      when_valid (validate_node_syntax value n.owner.syntax)
        (replaced_by n (clone n.owner.tokens.fresh (elems_of value) value.node))

  -- `insertArrayValueNode` at an index that is not negative
  pub insert_array_value_node : Handle → ℕ → Handle → Edited
  unfolding validate_node_syntax element_of
  insert_array_value_node n i value =
      if not (is_array (type_of n.node))
      then failed wrong_node_type
      else if ltb (count (children n)) i
      then failed array_index_out_of_range
      else when_valid (validate_node_syntax value n.owner.syntax)
          (element_of n i (clone n.owner.tokens.fresh (elems_of value) value.node))

  insert_unless_found : Handle → Text → Handle → Option (Option (ℕ × Node)) → Edited
  unfolding validate_node_syntax field_behind
  insert_unless_found n name value none = panicked
  insert_unless_found n name value (some (some _)) = failed object_field_exists
  insert_unless_found n name value (some none) =
      when_valid (validate_node_syntax value n.owner.syntax) (
        field_behind n value (encode_string n.owner.tokens.fresh name)
          (field_value_prefix (elems_of n) (children n)))

  -- `insertObjectFieldNode`
  pub insert_object_field_node : Handle → Text → Handle → Edited
  unfolding insert_unless_found
  insert_object_field_node n name value =
      if not (is_object (type_of n.node))
      then failed wrong_node_type
      else insert_unless_found n name value (object_field_index (elems_of n) name (children n))
