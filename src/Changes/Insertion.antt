-- ===== src/Changes/Insertion.antt =====
-- json/path.go: `InsertJSONPointer` inserts into the value that the receiver stands for.
use roundtrip.Access.Within.{node_at-Within}
use roundtrip.Json.Pointers.{insert_value, insert_at_pointer, insert_value-scalar}
use roundtrip.Access.Selects.{Selected, selected, missing, pointer_walk-Selected}
use roundtrip.Access.{
  node_at, Reached, found, insert, all_but_last, pointer_parent, pointer_token, walk,
  object_field_at, object_field_node, Cause,
}
use roundtrip.Base.{
  sym, [], ℕ, ◌≡◌, refl, ap, ◌∙◌, inl, inr, Text, codes, List, ◌∷◌, true, false, Bool-cases, Option,
  none, some, if◌then◌else◌, leb, length, text_eq, arith,
}
use roundtrip.Changes.Updates.{walk-PutAll}
use roundtrip.Changes.{
  Failure, Changed, changed, failure, Attempt, attempt, deny, settle, handle_at, change_at,
  at_index_of, last, no_path, insert_token, unless_exists, on_index, along_pointer,
  insert_json_pointer,
}
use roundtrip.Chars.{Unicode, IsUnicode}
use roundtrip.Decoder.{Node, node, start_of, end_of, ParseErrorKind}
use roundtrip.Edit.Insertion.Elements.{Refused}
use roundtrip.Edit.Insertion.Members.{
  MemberResult, member_inserted, member_exists, member_refused,
  insert_object_field_node-MemberResult,
}
use roundtrip.Edit.Insertion.Values.{
  ItemResult, item_inserted, item_beyond, item_refused, insert_array_value_node-ItemResult,
}
use roundtrip.Edit.Replace.{Older}
use roundtrip.Edit.{
  Edited, done, failed, elems_of, is_object, EditError, insert_array_value_node,
  insert_object_field_node,
}
use roundtrip.Json.Frames.{Keeps}
use roundtrip.Json.Insertion.{insert_item, size, items_count}
use roundtrip.Json.Views.{
  Kind, an_object, an_array, a_scalar, json_of-Kind, Searched, absent, present,
  object_field_index-Searched,
}
use roundtrip.Json.{Json, members, items, Items, Members, json_of, lookup, select, select_all}
use roundtrip.Linked.Segments.{Distinct}
use roundtrip.Pointer.Positional.{index_of, index_value, pointer_array_index-index_of}
use roundtrip.Pointer.{
  ArrayIndex, index, invalid_append, invalid_path_segment, pointer_array_index, parse_json_pointer,
}
use roundtrip.Syntax.{SyntaxOptions}
use roundtrip.Token.{Token, object, array}
use roundtrip.TokenList.Ranges.{Range, cut}
use roundtrip.TokenList.{TokenList}
use roundtrip.Tree.Clones.{Within}
use roundtrip.Tree.{Handle, count, children_of, type_of, object_field_index, field_value_prefix}

module _ (u : Unicode) (law : IsUnicode u) (rune_len : ℕ → ℕ) (n value : Handle)
    (opts : SyntaxOptions) (r : Range) (x : Json)
    (cr : cut (elems_of value) (start_of value.node) (end_of value.node) ≡ some r)
    (wr : Within r.inside value.node) (dv : Distinct (elems_of value))
    (hx : json_of (elems_of value) opts value.node ≡ some x)
    (older : Older (elems_of n) n.owner.tokens.fresh) where
  -- what an insertion at a token is for the node that stands for `v`
  data AtParent (token : Text) (v : Json) : Attempt → Type 0 where
    did :
        {ts : TokenList} {m : Node} {z : Json}
        → insert_value token x v ≡ some z
        → Keeps (elems_of n) ts.elems
        → json_of ts.elems opts m ≡ some z
        → AtParent token v (attempt (done ts m))
    could_not :
        {e : EditError} → insert_value token x v ≡ none → AtParent token v (attempt (failed e))
    may_not : {c : Cause} → insert_value token x v ≡ none → AtParent token v (deny c)
    bad_syntax :
        {e : EditError} {k : ParseErrorKind} {t : Token}
        → Refused u rune_len n value r k t
        → AtParent token v (attempt (failed e))

  module _ (token : Text) (p : Node) (wp : Within (elems_of n) p) where
    array_AtParent :
        (vs : Items)
        → json_of (elems_of n) opts p ≡ some (items vs)
        → (i : ℕ) (o : Option Json)
        → insert_value token x (items vs)
          ≡ (if leb i (size vs) then some (items (insert_item vs i x)) else none)
        → AtParent token
            (items vs)
            (attempt (insert_array_value_node u rune_len (handle_at n p) i value))
    array_AtParent vs hp i o q = by_result _ (
        insert_array_value_node-ItemResult u law rune_len (handle_at n p) value opts r x cr wr dv hx
          wp older i vs hp)
      where
        by_result :
            (e : Edited)
            → ItemResult u rune_len (handle_at n p) value opts r x i vs e
            → AtParent token (items vs) (attempt e)
        by_result _ (item_inserted l keeps stands) =
            let inside : leb i (size vs) ≡ true = ground arith in
            did (q ∙ rw inside refl) keeps stands
        by_result _ (item_beyond l) =
            let outside : leb i (size vs) ≡ false = ground arith in could_not (q ∙ rw outside refl)
        by_result _ (item_refused f) = bad_syntax f

    object_AtParent :
        (ms : Members) (prefix : Text)
        → json_of (elems_of n) opts p ≡ some (members ms)
        → field_value_prefix (elems_of n) (children_of p) ≡ some prefix
        → lookup ms token ≡ none
        → AtParent token
            (members ms)
            (attempt (insert_object_field_node u rune_len (handle_at n p) token value))
    object_AtParent ms prefix hp hf l = by_result _ (
        insert_object_field_node-MemberResult u law rune_len (handle_at n p) value opts r x cr wr dv
          hx wp older token prefix ms hp hf)
      where
        by_result :
            (e : Edited)
            → MemberResult u rune_len (handle_at n p) value opts r x token ms e
            → AtParent token (members ms) (attempt e)
        by_result _ (member_inserted _ keeps stands) = did (rw l refl) keeps stands
        by_result _ (member_exists y) = cc (l, y)
        by_result _ (member_refused f) = bad_syntax f

  -- The fields of the objects of the document are read by `fieldValuePrefix`.
  abbrev pub Prefixed : Type 0
  Prefixed =
      (p : Node) (is : List ℕ)
      → node_at n.node is ≡ some p
      → is_object (type_of p) ≡ true
      → (prefix : Text) × (field_value_prefix (elems_of n) (children_of p) ≡ some prefix)

  insert_token-AtParent :
      (token : Text) (p : Node) (is : List ℕ) (v : Json)
      → Prefixed
      → node_at n.node is ≡ some p
      → Within (elems_of n) p
      → json_of (elems_of n) opts p ≡ some v
      → AtParent token v (insert_token u rune_len value token (handle_at n p))
  unfolding insert_token unless_exists object_field_at object_field_node
  insert_token-AtParent token p is v prefixed hp wp h =
      by_kind p v hp wp h (json_of-Kind (elems_of n) opts p v h)
    where
      by_index :
          (p : Node) (wp : Within (elems_of n) p) (vs : Items)
          → json_of (elems_of n) opts p ≡ some (items vs)
          → text_eq token (codes "-") ≡ false
          → (a : ArrayIndex) → index_of token ≡ index_value a
          → AtParent token (items vs) (
              on_index a
                (λ i. attempt (insert_array_value_node u rune_len (handle_at n p) i value)))
      by_index p wp vs h d (index i) q = array_AtParent token p wp vs h i none (rw (d, q) refl)
      by_index p wp vs h d invalid_append q = may_not (rw (d, q) refl)
      by_index p wp vs h d invalid_path_segment q = may_not (rw (d, q) refl)

      by_kind :
          (p : Node) (v : Json)
          → node_at n.node is ≡ some p
          → Within (elems_of n) p
          → json_of (elems_of n) opts p ≡ some v
          → Kind (elems_of n) opts p v
          → AtParent token v (insert_token u rune_len value token (handle_at n p))
      by_kind _ v hp wp h (an_object {s = s} {e = e} {cs = cs} ms hm q) =
          let (prefix, hf) = prefixed (node object s e cs) is hp refl in
          let hq : json_of (elems_of n) opts (node object s e cs) ≡ some (members ms) =
            h ∙ ap (λ z. some z) q in
          rw q
            (by_search prefix hf hq (object_field_index-Searched (elems_of n) opts token cs ms hm))
        where
          by_search :
              (prefix : Text)
              → field_value_prefix (elems_of n) cs ≡ some prefix
              → json_of (elems_of n) opts (node object s e cs) ≡ some (members ms)
              → (f : Option (ℕ × Node)) × (object_field_index (elems_of n) token cs ≡ some f)
                × Searched (elems_of n) opts token cs ms f
              → AtParent token
                  (members ms)
                  (insert_token u rune_len value token (handle_at n (node object s e cs)))
          by_search prefix hf hq (none, i, absent l) =
              rw i (object_AtParent token (node object s e cs) wp ms prefix hq hf l)
          by_search prefix hf hq (some (i, f), g, present hc hv hy l) =
              rw (g, hv) (may_not (rw l refl))
      by_kind _ v hp wp h (an_array {s = s} {e = e} {cs = cs} vs hm q) =
          let hq : json_of (elems_of n) opts (node array s e cs) ≡ some (items vs) =
            h ∙ ap (λ z. some z) q in
          let k = items_count (elems_of n) opts cs vs hm in
          let all : leb (size vs) (size vs) ≡ true = ground arith in
          rw q (elim (Bool-cases (text_eq token (codes "-"))) [
            | inl d ↦ rw d (
                array_AtParent token (node array s e cs) wp vs hq (count cs) none
                  (rw (d, k, all) refl))
            | inr d ↦ rw d (
                by_index (node array s e cs) wp vs hq d (pointer_array_index token false)
                  (sym (pointer_array_index-index_of token)))
          ])
      by_kind _ v hp wp h (a_scalar o a c) = rw (o, a) (may_not (insert_value-scalar token x v c))

  -- what `InsertJSONPointer` ends with where the receiver stands for `v`
  pub data InsertResult (tokens : List Text) (v : Json) : Changed → Type 0 where
    inserted :
        {ts : TokenList} {n' : Node} {z : Json}
        → insert_at_pointer tokens x v ≡ some z
        → json_of ts.elems opts n' ≡ some z
        → InsertResult tokens v (changed ts n')
    nowhere :
        {f : Failure} → insert_at_pointer tokens x v ≡ none → InsertResult tokens v (failure f)
    refused :
        {f : Failure} {k : ParseErrorKind} {t : Token}
        → Refused u rune_len n value r k t
        → InsertResult tokens v (failure f)

  -- The tables of runes are as documented on ASCII. The ends of the value are in order in its token list,
  -- whose elements are distinct, and its descendants start and end in its range; the receiver and its
  -- descendants start and end in the document's token list, whose addresses are in use, and the text behind
  -- the colons of each object below the receiver can be read. The receiver stands for `v` and the value for
  -- `x`, and the pointer parses. `InsertJSONPointer` changes the receiver and the token list so that the
  -- receiver stands for `v` with `x` inserted where the tokens point: as the item at the last token's index
  -- or at the end, or as the last member of a name that no member has. It returns an error only where the
  -- tokens name no such place in `v`, or where the value's source text is refused under the document's
  -- syntax. It never panics.
  pub insert_json_pointer-InsertResult :
      (pointer : Text) (tokens : List Text) (v : Json)
      → parse_json_pointer pointer ≡ some tokens
      → json_of (elems_of n) opts n.node ≡ some v
      → Within (elems_of n) n.node
      → Prefixed
      → InsertResult tokens v (insert_json_pointer u rune_len n pointer value)
  unfolding insert_json_pointer pointer_parent
  insert_json_pointer-InsertResult pointer tokens v q h w prefixed = rw q (by_tokens tokens)
    where
      by_attempt :
          (t : Text) (ts : List Text) (is : List ℕ) (m : Node) (y : Json) (a : Attempt)
          → select_all select (all_but_last (t ∷ ts)) v ≡ some y
          → walk (pointer_token (elems_of n) false) insert 0 (all_but_last (t ∷ ts)) n.node
            ≡ found is m
          → AtParent (last t ts) y a
          → InsertResult (t ∷ ts) v (settle n.node is (at_index_of insert (length ts)) a)
      by_attempt t ts is m y _ s k (did {ts = fs} {m = m'} {z = z} hz keeps stands) =
          let all =
            walk-PutAll (elems_of n) fs.elems opts keeps insert 0 (all_but_last (t ∷ ts)) n.node v
              is m h k in
          let (n', z', sets, puts, hj) = all.change m' z stands in
          rw sets (inserted (rw (s, hz) puts) hj)
      by_attempt t ts is m y _ s k (could_not o) = nowhere (rw (s, o) refl)
      by_attempt t ts is m y _ s k (may_not o) = nowhere (rw (s, o) refl)
      by_attempt t ts is m y _ s k (bad_syntax f) = refused f

      by_walk :
          (t : Text) (ts : List Text) (r : Reached)
          → walk (pointer_token (elems_of n) false) insert 0 (all_but_last (t ∷ ts)) n.node ≡ r
          → Selected (elems_of n) opts select insert n.node v 0 (all_but_last (t ∷ ts)) r
          → InsertResult (t ∷ ts) v (
              change_at n
                (at_index_of insert (length ts))
                (insert_token u rune_len value (last t ts))
                r)
      by_walk t ts _ k (selected {is = is} {m = m} {x = y} s p hm) = by_attempt t ts is m y _ s k (
          insert_token-AtParent (last t ts) m is y prefixed p
            (node_at-Within (elems_of n) is n.node m w p) hm)
      by_walk t ts _ k (missing _ _ _ _ o) = nowhere (rw o refl)

      by_tokens :
          (tokens : List Text)
          → InsertResult tokens v (
              along_pointer n insert (some tokens) (no_path insert) (insert_token u rune_len value))
      by_tokens [] = nowhere refl
      by_tokens (t ∷ ts) =
          by_walk t ts _ refl
            (pointer_walk-Selected (elems_of n) opts insert (all_but_last (t ∷ ts)) n.node v h)
