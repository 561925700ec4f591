-- ===== src/Edit/Insertion/Elements.antt =====
-- json/meta.go: `InsertArrayValue` and `InsertObjectField` of a value that is a node.
use roundtrip.Base.{
  ℕ, ◌+◌, ◌<◌, ◌≤◌, ◌≡◌, refl, ap, ◌∙◌, inl, inr, List, [], ◌∷◌, ◌++◌, true, false, Bool-cases,
  Option, none, some, ltb, Text, codes, arith, subst,
}
use roundtrip.Chars.{Unicode, IsUnicode}
use roundtrip.Decoder.{
  Decoder, Node, start_of, end_of, object_field_node, array_element_node, ParseErrorKind,
  parse_error,
}
use roundtrip.Edit.Insertion.Places.{insert_child_at-ChildAt}
use roundtrip.Edit.Insertion.{ChildAt, values-append}
use roundtrip.Edit.Replace.{validate_cases}
use roundtrip.Edit.{
  Edited, done, failed, wrong_node_type, object_field_exists, array_index_out_of_range,
  invalid_value, elems_of, children, is_object, is_array, anchored, encode_string, field_tokens,
  element_of, field_of, field_behind, validate_node_syntax, insert_array_value_node,
  insert_object_field_node, insert_unless_found,
}
use roundtrip.Quote.{append_text}
use roundtrip.Token.{anchor, colon, whitespace, string, Token, token}
use roundtrip.TokenList.Ranges.{Range, cut, push_back_list}
use roundtrip.TokenList.{Elem, TokenList, values}
use roundtrip.Tree.{Handle, count, clone, type_of, object_field_index, field_value_prefix}
use roundtrip.Tree.Copies.{clone-Cloned, values-copies}
use roundtrip.Tree.Clones.{Within, clone_total}

-- the tokens of a child between its anchors
abbrev pub between_anchors : List Token → List Token
between_anchors ts = token anchor [] ∷ (ts ++ token anchor [] ∷ [])

values-anchored :
    (make : ℕ → ℕ → Node) (ts : TokenList)
    → values (anchored make ts).1.elems ≡ between_anchors (values ts.elems)
values-anchored make ts = ap (◌∷◌ (token anchor [])) (values-append ts.elems _)

-- the tokens of a field: its key, the colon, the text that follows colons in the object, and the value
abbrev pub spaced : Text → List Token
spaced [] = []
spaced (c ∷ cs) = token whitespace (c ∷ cs) ∷ []

abbrev pub field_values : Text → Text → List Token → List Token
field_values name prefix value =
    token string (append_text name true) ∷ (token colon (codes ":") ∷ (spaced prefix ++ value))

values-field_tokens :
    (prefix : Text) (fresh : ℕ) (name : Text) (src : List Elem)
    → values ((field_tokens prefix (encode_string fresh name).1).elems ++ src)
      ≡ field_values name prefix (values src)
values-field_tokens [] fresh name src = refl
values-field_tokens (c ∷ cs) fresh name src = refl

module _ (u : Unicode) (rune_len : ℕ → ℕ) (n value : Handle) (v : Range) where
  abbrev pub Refused : ParseErrorKind → Token → Type 0
  Refused e t =
      (d : Decoder) × (validate_node_syntax u rune_len value n.owner.syntax ≡ parse_error e t d)

  -- what `InsertArrayValue` returns
  pub data ElementResult (i : ℕ) : Edited → Type 0 where
    not_array : is_array (type_of n.node) ≡ false → ElementResult i (failed wrong_node_type)
    beyond :
        is_array (type_of n.node) ≡ true
        → count (children n) < i
        → ElementResult i (failed array_index_out_of_range)
    element_refused :
        {e : ParseErrorKind} {t : Token}
        → Refused e t
        → ElementResult i (failed (invalid_value e t))
    element_inserted :
        {k m : Node} {s e : ℕ} {ts : TokenList}
        → ChildAt n i (array_element_node k s e) (between_anchors (values v.inside)) ts m
        → ElementResult i (done ts m)

  -- what `InsertObjectField` returns
  pub data FieldResult (name prefix : Text) (found : Option (ℕ × Node)) : Edited → Type 0 where
    not_object :
        is_object (type_of n.node) ≡ false → FieldResult name prefix found (failed wrong_node_type)
    exists :
        {f : ℕ × Node} → found ≡ some f → FieldResult name prefix found (failed object_field_exists)
    field_refused :
        {e : ParseErrorKind} {t : Token}
        → Refused e t
        → FieldResult name prefix found (failed (invalid_value e t))
    field_inserted :
        {key k m : Node} {s e : ℕ} {ts : TokenList}
        → found ≡ none
        → ChildAt n
            (count (children n))
            (object_field_node key k s e)
            (between_anchors (field_values name prefix (values v.inside)))
            ts
            m
        → FieldResult name prefix found (done ts m)

module _ (n value : Handle) (v : Range)
    (cv : cut (elems_of value) (start_of value.node) (end_of value.node) ≡ some v)
    (w : Within v.inside value.node) (wn : Within (elems_of n) n.node) where
  element_of-done :
      (i : ℕ)
      → i ≤ count (children n)
      → (k : Node) × (s e : ℕ) × (ts : TokenList) × (m : Node) × (element_of n i
            (clone n.owner.tokens.fresh (elems_of value) value.node)
          ≡ done ts m)
        × ChildAt n i (array_element_node k s e) (between_anchors (values v.inside)) ts m
  unfolding element_of
  element_of-done i le =
      let fresh = n.owner.tokens.fresh in
      let (k, src, h) = clone_total fresh (elems_of value) value.node v cv w in
      let c = clone-Cloned fresh (elems_of value) value.node k src v cv h in
      let same =
        values-anchored (array_element_node k) src
        ∙ ap between_anchors (ap values c.elems ∙ values-copies v.inside fresh) in
      let (ts, m, p, q) =
        insert_child_at-ChildAt n i _ (anchored (array_element_node k) src).1 wn le in
      (
        k,
        src.fresh,
        src.fresh + 1,
        ts,
        m,
        rw h p,
        subst (λ l. ChildAt n i (array_element_node k src.fresh (src.fresh + 1)) l ts m) same q,
      )

  field_behind-done :
      (name prefix : Text)
      → (key k : Node) × (s e : ℕ) × (ts : TokenList) × (m : Node) × (field_behind n value
            (encode_string n.owner.tokens.fresh name)
            (some prefix)
          ≡ done ts m)
        × ChildAt n
            (count (children n))
            (object_field_node key k s e)
            (between_anchors (field_values name prefix (values v.inside)))
            ts
            m
  unfolding field_behind field_of
  field_behind-done name prefix =
      let start = encode_string n.owner.tokens.fresh name in
      let made = field_tokens prefix start.1 in
      let (k, src, h) = clone_total made.fresh (elems_of value) value.node v cv w in
      let c = clone-Cloned made.fresh (elems_of value) value.node k src v cv h in
      let same =
        values-anchored (object_field_node start.0 k) (push_back_list made src)
        ∙ ap between_anchors (
            values-field_tokens prefix n.owner.tokens.fresh name src.elems
            ∙ ap (field_values name prefix)
                (ap values c.elems ∙ values-copies v.inside made.fresh)) in
      let (ts, m, p, q) =
        insert_child_at-ChildAt n (count (children n)) _
          (anchored (object_field_node start.0 k) (push_back_list made src)).1 wn (omega arith) in
      (
        start.0,
        k,
        src.fresh,
        src.fresh + 1,
        ts,
        m,
        rw h p,
        subst
            (λ l.
              ChildAt n (count (children n)) (object_field_node start.0 k src.fresh (src.fresh + 1))
                l ts m)
            same q,
      )

  module _ (u : Unicode) (law : IsUnicode u) (rune_len : ℕ → ℕ) where
    -- The tables of runes are as documented on ASCII. The ends of the value are in order in its token
    -- list, and its descendants start and end in its range; the node and its descendants start and end
    -- in the document's token list. `InsertArrayValue` of a node returns an error for a node that is no
    -- array, for an index beyond the number of elements, and for a value whose source text is refused
    -- under the document's syntax. Else it splices in, behind the start of the array or behind the
    -- element before, a gap of whitespace, the value's tokens between anchors, and a comma on the side of
    -- the other elements, puts the new element into the tree at the index, and leaves all else as it is.
    pub insert_array_value_node-ElementResult :
        (i : ℕ)
        → ElementResult u rune_len n value v i (insert_array_value_node u rune_len n i value)
    unfolding insert_array_value_node
    insert_array_value_node-ElementResult i = elim (Bool-cases (is_array (type_of n.node))) [
      | inr o ↦ rw o (not_array o)
      | inl a ↦ elim (Bool-cases (ltb (count (children n)) i)) [
        | inl b ↦ rw (a, b) (beyond a (ground arith))
        | inr l ↦ elim (validate_cases u law rune_len value n.owner.syntax) [
          | inl (_, _, h) ↦
              let (k, s, e, ts, m, p, q) = element_of-done i (ground arith) in
              rw (a, l, h, p) (element_inserted q)
          | inr (e, t, d, h) ↦ rw (a, l, h) (element_refused (d, h))
        ]
      ]
    ]

    -- Under the same conditions, where the keys of the object can be read and its fields have values:
    -- `InsertObjectField` of a node returns an error for a node that is no object, for a name that the
    -- object has, and for a value whose source text is refused. Else it splices in, behind the last field
    -- or behind the start of an empty object, a comma where there are other fields, a gap of whitespace,
    -- and between anchors the quoted name, a colon, the text that follows the colon of a field of the
    -- object, and the value's tokens, and puts the new field last into the tree.
    pub insert_object_field_node-FieldResult :
        (name prefix : Text) (found : Option (ℕ × Node))
        → object_field_index (elems_of n) name (children n) ≡ some found
        → field_value_prefix (elems_of n) (children n) ≡ some prefix
        → FieldResult u rune_len n value v name prefix found
            (insert_object_field_node u rune_len n name value)
    unfolding insert_object_field_node insert_unless_found
    insert_object_field_node-FieldResult name prefix found hf hp =
        elim (Bool-cases (is_object (type_of n.node))) [
          | inr o ↦ rw o (not_object o)
          | inl a ↦ rw (a, hf) (by_found found refl)
        ]
      where
        by_found :
            (f : Option (ℕ × Node))
            → found ≡ f
            → FieldResult u rune_len n value v name prefix found
                (insert_unless_found u rune_len n name value (some f))
        by_found (some f) h = exists h
        by_found none h = elim (validate_cases u law rune_len value n.owner.syntax) [
          | inl (_, _, y) ↦
              let (key, k, s, e, ts, m, p, q) = field_behind-done name prefix in
              rw (y, hp, p) (field_inserted h q)
          | inr (e, t, d, y) ↦ rw y (field_refused (d, y))
        ]
