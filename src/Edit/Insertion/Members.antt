-- ===== src/Edit/Insertion/Members.antt =====
-- json/meta.go: what `InsertObjectField` is for the value of an object.
use roundtrip.Base.{
  ℕ, ◌+◌, ◌<◌, ◌≤◌, ◌≡◌, refl, sym, ◌∙◌, subst, inl, inr, List, [], ◌∷◌, true, Bool-cases, Option,
  none, some, ◌==◌, length, arith, Text,
}
use roundtrip.Chars.{Unicode, IsUnicode}
use roundtrip.Decoder.{Node, start_of, end_of, object_field_node, ParseErrorKind}
use roundtrip.Edit.Insertion.Elements.{
  FieldResult, not_object, exists, field_refused, field_inserted, Refused,
  insert_object_field_node-FieldResult,
}
use roundtrip.Edit.Insertion.Lists.{insert_child_at-Carried}
use roundtrip.Edit.Insertion.Values.{
  json_of-clone, members_of_object, json_of_object, anchored-Newer, anchored-holds, when_valid-done,
}
use roundtrip.Edit.Replace.{Older}
use roundtrip.Edit.{
  Edited, done, failed, elems_of, children, is_object, object_field_exists, invalid_value, anchored,
  encode_string, field_tokens, field_of, field_behind, insert_unless_found,
  insert_object_field_node,
}
use roundtrip.Json.Frames.{Keeps, members_of-Keeps}
use roundtrip.Json.Insertion.{append_member, members_of-insert_child}
use roundtrip.Json.Views.{Searched, absent, present, object_field_index-Searched}
use roundtrip.Json.{Json, Members, members, json_of, lookup}
use roundtrip.Linked.Segments.{Distinct}
use roundtrip.Quote.RoundTrip.{unquote_string-append_text}
use roundtrip.Quote.{append_text}
use roundtrip.Syntax.{SyntaxOptions, json5}
use roundtrip.Token.{string, Token, token}
use roundtrip.TokenList.Lookups.{
  Newer, Newer-weaken, value_at-Newer, Newer-append, copies-Newer, value_at-left, value_at-right,
  Older-Apart,
}
use roundtrip.TokenList.Ranges.{Range, cut, push_back_list}
use roundtrip.TokenList.{Elem, TokenList, value_at}
use roundtrip.Tree.Clones.{Within, clone_total}
use roundtrip.Tree.Copies.{clone-Cloned}
use roundtrip.Tree.{
  Handle, child, count, children_of, type_of, object_field_index, field_value_prefix, field_name,
}

value_at-first : (e : Elem) (es : List Elem) → value_at (e ∷ es) e.id ≡ some e.value
unfolding value_at
value_at-first e es = let same : (e.id == e.id) ≡ true = ground arith in rw same refl

-- the tokens of the key with the colon and what follows it
module _ (prefix : Text) (fresh : ℕ) (name : Text) where
  abbrev key_token : Token
  key_token = token string (append_text name true)

  abbrev key_list : TokenList
  key_list = field_tokens prefix (encode_string fresh name).1

  key_list-fresh : fresh < key_list.fresh
  key_list-fresh = by_prefix prefix
    where
      by_prefix : (p : Text) → fresh < (field_tokens p (encode_string fresh name).1).fresh
      by_prefix [] = omega arith
      by_prefix (c ∷ cs) = omega arith

  key_list-Newer : Newer key_list.elems fresh
  key_list-Newer = by_prefix prefix
    where
      by_prefix : (p : Text) → Newer (field_tokens p (encode_string fresh name).1).elems fresh
      by_prefix [] = (omega arith, (omega arith, tt))
      by_prefix (c ∷ cs) = (omega arith, (omega arith, (omega arith, tt)))

  key_list-Older : Older key_list.elems key_list.fresh
  key_list-Older = by_prefix prefix
    where
      by_prefix :
          (p : Text)
          → Older
              (field_tokens p (encode_string fresh name).1).elems
              (field_tokens p (encode_string fresh name).1).fresh
      by_prefix [] = (omega arith, (omega arith, tt))
      by_prefix (c ∷ cs) = (omega arith, (omega arith, (omega arith, tt)))

  key_list-key : value_at key_list.elems fresh ≡ some key_token
  key_list-key = by_prefix prefix
    where
      by_prefix :
          (p : Text)
          → value_at (field_tokens p (encode_string fresh name).1).elems fresh ≡ some key_token
      by_prefix [] = value_at-first (record { id = fresh; value = key_token }) _
      by_prefix (c ∷ cs) = value_at-first (record { id = fresh; value = key_token }) _

key_name :
    (es : List Elem) (k : Node) (s e fresh : ℕ) (name : Text)
    → value_at es fresh ≡ some (token string (append_text name true))
    → field_name es (object_field_node (encode_string fresh name).0 k s e) ≡ some name
unfolding child
key_name es k s e fresh name h = rw h (unquote_string-append_text name true json5)

module _ (n value : Handle) (opts : SyntaxOptions) (v : Range) (x : Json)
    (cv : cut (elems_of value) (start_of value.node) (end_of value.node) ≡ some v)
    (w : Within v.inside value.node) (dv : Distinct (elems_of value))
    (hx : json_of (elems_of value) opts value.node ≡ some x)
    (older : Older (elems_of n) n.owner.tokens.fresh) where
  field_behind-value :
      (name prefix : Text) (ms : Members) (ts : TokenList) (m : Node)
      → json_of (elems_of n) opts n.node ≡ some (members ms)
      → field_behind n value (encode_string n.owner.tokens.fresh name) (some prefix) ≡ done ts m
      → Keeps (elems_of n) ts.elems
        × (json_of ts.elems opts m ≡ some (members (append_member ms name x)))
  unfolding field_behind field_of
  field_behind-value name prefix ms ts m hn h =
      let k0 = n.owner.tokens.fresh in
      let made = key_list prefix k0 name in
      let (k, src, hk) = clone_total made.fresh (elems_of value) value.node v cv w in
      let (a, hs) = members_of_object (elems_of n) opts n.node ms hn in
      let c = clone-Cloned made.fresh (elems_of value) value.node k src v cv hk in
      let made_later : k0 < made.fresh = key_list-fresh prefix k0 name in
      let lower : made.fresh ≤ src.fresh =
        let q : src.fresh ≡ made.fresh + length v.inside = c.next in omega arith in
      let key = (encode_string k0 name).0 in
      let both = push_back_list made src in
      let new = anchored (object_field_node key k) both in
      let src_newer : Newer src.elems made.fresh =
        subst (λ l. Newer l made.fresh) (sym c.elems) (copies-Newer v.inside made.fresh) in
      let copies_newer : Newer src.elems k0 =
        Newer-weaken src.elems k0 made.fresh src_newer (omega arith) in
      let newer : Newer both.elems k0 =
        Newer-append made.elems src.elems k0 (key_list-Newer prefix k0 name) copies_newer in
      let carried =
        insert_child_at-Carried n (count (children n)) new.0 new.1 ts m k0 older
          (anchored-Newer (object_field_node key k) both k0 newer (omega arith)) (omega arith)
          (rw hk at h) in
      let holds : (j : ℕ) (t : Token)
          → value_at both.elems j ≡ some t
          → j < src.fresh
          → value_at ts.elems j ≡ some t =
        λ j t hj l.
          carried.holds j t (anchored-holds (object_field_node key k) both k0 j t hj l)
            (omega arith) in
      let first : json_of ts.elems opts k ≡ some x =
        json_of-clone (elems_of value) ts.elems opts made.fresh value.node k src v x cv dv hk
          (λ j t hj l.
            holds j t
              (value_at-right made.elems src.elems j (
                  Older-Apart made.elems made.fresh j (key_list-Older prefix k0 name)
                    (value_at-Newer src.elems made.fresh j t hj src_newer))
                ∙ hj)
              l)
          hx in
      let read =
        holds k0 _ (value_at-left made.elems src.elems k0 _ (key_list-key prefix k0 name))
          (omega arith) in
      let old =
        members_of-Keeps (elems_of n) ts.elems opts carried.keeps (children_of n.node) ms hs in
      (
        carried.keeps,
        rw (← carried.tree) (
            json_of_object ts.elems opts n.node _ _ a (
              members_of-insert_child ts.elems opts k x first (children_of n.node) ms key name _ _
                old (key_name ts.elems k src.fresh (src.fresh + 1) k0 name read))),
      )

insert_unless_found_inv :
    (u : Unicode) (rune_len : ℕ → ℕ) (n value : Handle) (name prefix : Text) (ts : TokenList)
    (m : Node)
    → object_field_index (elems_of n) name (children n) ≡ some none
    → field_value_prefix (elems_of n) (children n) ≡ some prefix
    → insert_object_field_node u rune_len n name value ≡ done ts m
    → field_behind n value (encode_string n.owner.tokens.fresh name) (some prefix) ≡ done ts m
unfolding insert_object_field_node insert_unless_found
insert_unless_found_inv u rune_len n value name prefix ts m hf hp h =
    elim (Bool-cases (is_object (type_of n.node))) [
      | inl a ↦ when_valid-done u rune_len _ _ ts m (rw (a, hf, hp) at h)
      | inr o ↦ cc (rw o at h)
    ]

-- what `InsertObjectField` is for an object that stands for members
pub data MemberResult (u : Unicode) (rune_len : ℕ → ℕ) (n value : Handle) (opts : SyntaxOptions)
    (v : Range) (x : Json) (name : Text) (ms : Members) : Edited → Type 0 where
  member_inserted :
      {ts : TokenList} {m : Node}
      → lookup ms name ≡ none
      → Keeps (elems_of n) ts.elems
      → json_of ts.elems opts m ≡ some (members (append_member ms name x))
      → MemberResult u rune_len n value opts v x name ms (done ts m)
  member_exists :
      {y : Json}
      → lookup ms name ≡ some y
      → MemberResult u rune_len n value opts v x name ms (failed object_field_exists)
  member_refused :
      {e : ParseErrorKind} {t : Token}
      → Refused u rune_len n value v e t
      → MemberResult u rune_len n value opts v x name ms (failed (invalid_value e t))

module _ (u : Unicode) (law : IsUnicode u) (rune_len : ℕ → ℕ) (n value : Handle)
    (opts : SyntaxOptions) (v : Range) (x : Json)
    (cv : cut (elems_of value) (start_of value.node) (end_of value.node) ≡ some v)
    (w : Within v.inside value.node) (dv : Distinct (elems_of value))
    (hx : json_of (elems_of value) opts value.node ≡ some x) (wn : Within (elems_of n) n.node)
    (older : Older (elems_of n) n.owner.tokens.fresh) where
  -- The tables of runes are as documented on ASCII. The ends of the value are in order in its token list,
  -- whose elements are distinct, and its descendants start and end in its range; the node and its
  -- descendants start and end in the document's token list, whose addresses are in use. The text that
  -- follows the colons of the object's fields is `prefix`. The node stands for an object of members, the
  -- value for `x`. `InsertObjectField` of the value returns an error for a name that a member has, and for a
  -- value whose source text is refused under the document's syntax; else the elements of the document keep
  -- their values in the new token list, in which the node stands for the members with a member of that name
  -- and `x` behind them.
  pub insert_object_field_node-MemberResult :
      (name prefix : Text) (ms : Members)
      → json_of (elems_of n) opts n.node ≡ some (members ms)
      → field_value_prefix (elems_of n) (children n) ≡ some prefix
      → MemberResult u rune_len n value opts v x name ms
          (insert_object_field_node u rune_len n name value)
  insert_object_field_node-MemberResult name prefix ms hn hp =
      let (a, hs) = members_of_object (elems_of n) opts n.node ms hn in
      by_search a (object_field_index-Searched (elems_of n) opts name (children n) ms hs)
    where
      by_result :
          (a : is_object (type_of n.node) ≡ true) (found : Option (ℕ × Node)) (r : Edited)
          → object_field_index (elems_of n) name (children n) ≡ some found
          → Searched (elems_of n) opts name (children n) ms found
          → insert_object_field_node u rune_len n name value ≡ r
          → FieldResult u rune_len n value v name prefix found r
          → MemberResult u rune_len n value opts v x name ms r
      by_result a found _ hf s q (not_object o) = cc (a, o)
      by_result a none _ hf s q (exists e) = cc e
      by_result a (some f) _ hf (present _ _ _ l) q (exists e) = member_exists l
      by_result a found _ hf s q (field_refused f) = member_refused f
      by_result a none _ hf (absent l) q (field_inserted {m = m} {ts = ts} e c) =
          let (keeps, stands) =
            field_behind-value n value opts v x cv w dv hx older name prefix ms ts m hn
              (insert_unless_found_inv u rune_len n value name prefix ts m hf hp q) in
          member_inserted l keeps stands
      by_result a (some f) _ hf s q (field_inserted e c) = cc e

      by_search :
          is_object (type_of n.node) ≡ true
          → (r : Option (ℕ × Node)) × (object_field_index (elems_of n) name (children n) ≡ some r)
            × Searched (elems_of n) opts name (children n) ms r
          → MemberResult u rune_len n value opts v x name ms
              (insert_object_field_node u rune_len n name value)
      by_search a (found, hf, s) =
          by_result a found (insert_object_field_node u rune_len n name value) hf s refl (
            insert_object_field_node-FieldResult n value v cv w wn u law rune_len name prefix found
              hf hp)
