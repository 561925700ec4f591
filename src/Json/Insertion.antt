-- ===== src/Json/Insertion.antt =====
-- What the insertion of a value is for values: an item at an index, a member behind the others.
use roundtrip.Base.{ℕ, zero, suc, ◌≡◌, refl, Text, List, some}
use roundtrip.Decoder.{Node, Nodes, nil, cons, array_element_node, object_field_node}
use roundtrip.Edit.{insert_child}
use roundtrip.Json.Views.{
  ItemView, item_view, items_of-ItemView, FieldView, field_view, members_of-FieldView,
}
use roundtrip.Json.{
  Json, Items, none_left, item, Members, end, member, json_of, items_of, members_of,
}
use roundtrip.Syntax.{SyntaxOptions}
use roundtrip.TokenList.{Elem}
use roundtrip.Tree.{count, field_name}

-- the items with one more at an index, before those that stood there and behind
pub insert_item : Items → ℕ → Json → Items
insert_item vs zero x = item x vs
insert_item none_left (suc i) x = item x none_left
insert_item (item v vs) (suc i) x = item v (insert_item vs i x)

abbrev pub size : Items → ℕ
size none_left = 0
size (item v vs) = suc (size vs)

pub append_member : Members → Text → Json → Members
append_member end name x = member name x end
append_member (member k v ms) name x = member k v (append_member ms name x)

module _ (es : List Elem) (opts : SyntaxOptions) (new : Node) (x : Json)
    (hx : json_of es opts new ≡ some x) where
  pub items_of-insert_child :
      (cs : Nodes) (vs : Items) (i s e : ℕ)
      → items_of es opts cs ≡ some vs
      → items_of es opts (insert_child cs i (array_element_node new s e))
        ≡ some (insert_item vs i x)
  unfolding items_of insert_item
  items_of-insert_child cs vs zero s e h = rw (hx, h) refl
  items_of-insert_child nil vs (suc i) s e h = let q : none_left ≡ vs = cc h in rw (hx, ← q) refl
  items_of-insert_child (cons c cs) vs (suc i) s e h =
      by_view c (items_of-ItemView es opts c cs vs h) (λ rest. items_of-insert_child cs rest i s e)
    where
      by_view :
          (c : Node)
          → ItemView es opts cs vs c
          → ((rest : Items)
              → items_of es opts cs ≡ some rest
              → items_of es opts (insert_child cs i (array_element_node new s e))
                ≡ some (insert_item rest i x))
          → items_of es opts (insert_child (cons c cs) (suc i) (array_element_node new s e))
            ≡ some (insert_item vs (suc i) x)
      by_view _ (item_view {rest = rest} hv hr q) again = rw (hv, again rest hr, q) refl

  pub members_of-insert_child :
      (cs : Nodes) (ms : Members) (key : Node) (name : Text) (s e : ℕ)
      → members_of es opts cs ≡ some ms
      → field_name es (object_field_node key new s e) ≡ some name
      → members_of es opts (insert_child cs (count cs) (object_field_node key new s e))
        ≡ some (append_member ms name x)
  unfolding members_of append_member
  members_of-insert_child nil ms key name s e h hn =
      let q : end ≡ ms = cc h in rw (hn, hx, ← q) refl
  members_of-insert_child (cons c cs) ms key name s e h hn =
      by_view c (members_of-FieldView es opts c cs ms h)
        (λ rest hr. members_of-insert_child cs rest key name s e hr hn)
    where
      by_view :
          (c : Node)
          → FieldView es opts cs ms c
          → ((rest : Members)
              → members_of es opts cs ≡ some rest
              → members_of es opts (insert_child cs (count cs) (object_field_node key new s e))
                ≡ some (append_member rest name x))
          → members_of es opts
              (insert_child (cons c cs) (count (cons c cs)) (object_field_node key new s e))
            ≡ some (append_member ms name x)
      by_view _ (field_view {rest = rest} hk hv hr q) again = rw (hk, hv, again rest hr, q) refl

pub items_count :
    (es : List Elem) (opts : SyntaxOptions) (cs : Nodes) (vs : Items)
    → items_of es opts cs ≡ some vs
    → count cs ≡ size vs
unfolding items_of
items_count es opts nil vs h = let q : none_left ≡ vs = cc h in rw (← q) refl
items_count es opts (cons c cs) vs h =
    by_view c (items_of-ItemView es opts c cs vs h) (λ rest. items_count es opts cs rest)
  where
    by_view :
        (c : Node)
        → ItemView es opts cs vs c
        → ((rest : Items) → items_of es opts cs ≡ some rest → count cs ≡ size rest)
        → count (cons c cs) ≡ size vs
    by_view _ (item_view {rest = rest} hx hr q) again = rw (q, again rest hr) refl

abbrev pub width : Members → ℕ
width end = 0
width (member k v ms) = suc (width ms)

pub members_count :
    (es : List Elem) (opts : SyntaxOptions) (cs : Nodes) (ms : Members)
    → members_of es opts cs ≡ some ms
    → count cs ≡ width ms
unfolding members_of
members_count es opts nil ms h = let q : end ≡ ms = cc h in rw (← q) refl
members_count es opts (cons c cs) ms h =
    by_view c (members_of-FieldView es opts c cs ms h) (λ rest. members_count es opts cs rest)
  where
    by_view :
        (c : Node)
        → FieldView es opts cs ms c
        → ((rest : Members) → members_of es opts cs ≡ some rest → count cs ≡ width rest)
        → count (cons c cs) ≡ width ms
    by_view _ (field_view {rest = rest} hk hv hr q) again = rw (q, again rest hr) refl
