-- ===== src/Json/Updates.antt =====
-- A value in which what a pointer selects is exchanged, and the node that stands for it.
use roundtrip.Base.{
  ℕ, zero, suc, ◌≡◌, refl, ap, ◌∙◌, Text, List, [], ◌∷◌, Bool-cases, inl, inr, Option, none, some,
  if◌then◌else◌, text_eq,
}
use roundtrip.Changes.{with_value}
use roundtrip.Decoder.{Node, node, Nodes, nil, cons}
use roundtrip.Edit.Renaming.{set_child}
use roundtrip.Json.Frames.{Keeps, json_of-Keeps, items_of-Keeps, members_of-Keeps}
use roundtrip.Json.Views.{
  ItemView, item_view, items_of-ItemView, FieldView, field_view, members_of-FieldView,
}
use roundtrip.Json.{
  Json, members, items, Items, none_left, item, Members, end, member, json_of, items_of, members_of,
  select,
}
use roundtrip.Pointer.Positional.{index_of}
use roundtrip.Syntax.{SyntaxOptions}
use roundtrip.Token.{object_field, array_element}
use roundtrip.TokenList.{Elem, value_at}
use roundtrip.Tree.Copies.{on_some_inv}
use roundtrip.Tree.{field_name, object_field_index, further, child, on_some}

-- the first member of a name, or the item at an index, with another value
abbrev pub put_member : Members → Text → Json → Members
put_member end name y = end
put_member (member k v ms) name y =
    if text_eq k name then member k y ms else member k v (put_member ms name y)

abbrev pub put_item : Items → ℕ → Json → Items
put_item none_left i y = none_left
put_item (item v vs) zero y = item y vs
put_item (item v vs) (suc i) y = item v (put_item vs i y)

abbrev pub put_value : Text → Json → Json → Option Json
put_value token y (members ms) = some (members (put_member ms token y))
put_value token y (items vs) = on_some (index_of token) (λ i. some (items (put_item vs i y)))
put_value token y _ = none

-- the value with `y` in place of what the tokens select
abbrev pub put_all : List Text → Json → Json → Option Json
put_all [] y v = some y
put_all (t ∷ ts) y v = on_some (select t v) λ x. on_some (put_all ts y x) λ z. put_value t z v

further_inv :
    (o : Option (ℕ × Node)) (i : ℕ) (f : Node)
    → further o ≡ some (i, f)
    → (j : ℕ) × (o ≡ some (j, f)) × (suc j ≡ i)
further_inv none i f h = cc h
further_inv (some (j, g)) i f h =
    let a : suc j ≡ i = cc h in let b : g ≡ f = cc h in (j, ap (λ z. some (j, z)) b, a)

module _ (es es' : List Elem) (opts : SyntaxOptions) (keeps : Keeps es es') (c' : Node) (y : Json)
    (hy : json_of es' opts c' ≡ some y) where
  field_name-Keeps :
      (s e : ℕ) (k v v' : Node) (name : Text)
      → field_name es (node object_field s e (cons k (cons v nil))) ≡ some name
      → field_name es' (node object_field s e (cons k (cons v' nil))) ≡ some name
  unfolding child
  field_name-Keeps s e k v v' name h =
      let (t, ht, hn) = on_some_inv (value_at es _) _ name h in rw (keeps _ t ht) hn

  pub items_of-put_item :
      (cs : Nodes) (vs : Items) (i : ℕ) (c : Node)
      → items_of es opts cs ≡ some vs
      → child cs i ≡ some c
      → items_of es' opts (set_child cs i (with_value c c')) ≡ some (put_item vs i y)
  unfolding items_of child
  items_of-put_item nil vs i c h k = cc k
  items_of-put_item (cons f fs) vs i c h k =
      by_view f (items_of-ItemView es opts f fs vs h) i k (λ j rest. items_of-put_item fs rest j c)
    where
      by_view :
          (f : Node)
          → ItemView es opts fs vs f
          → (i : ℕ) → child (cons f fs) i ≡ some c
          → ((j : ℕ) (rest : Items)
              → items_of es opts fs ≡ some rest
              → child fs j ≡ some c
              → items_of es' opts (set_child fs j (with_value c c')) ≡ some (put_item rest j y))
          → items_of es' opts (set_child (cons f fs) i (with_value c c')) ≡ some (put_item vs i y)
      by_view _ (item_view {s = s} {e = e} {v = v} {rest = rest} hv hr q) zero k again =
          let same : node array_element s e (cons v nil) ≡ c = cc k in
          rw (← same, hy, items_of-Keeps es es' opts keeps fs rest hr, q) refl
      by_view _ (item_view {v = v} {x = x} {rest = rest} hv hr q) (suc i) k again =
          rw (json_of-Keeps es es' opts keeps v x hv, again i rest hr k, q) refl

  pub members_of-put_member :
      (cs : Nodes) (ms : Members) (name : Text) (i : ℕ) (f : Node)
      → members_of es opts cs ≡ some ms
      → object_field_index es name cs ≡ some (some (i, f))
      → members_of es' opts (set_child cs i (with_value f c')) ≡ some (put_member ms name y)
  unfolding members_of object_field_index child
  members_of-put_member nil ms name i f h k = cc k
  members_of-put_member (cons g gs) ms name i f h k =
      by_view g (members_of-FieldView es opts g gs ms h) k
        (λ j rest. members_of-put_member gs rest name j f)
    where
      by_view :
          (g : Node)
          → FieldView es opts gs ms g
          → object_field_index es name (cons g gs) ≡ some (some (i, f))
          → ((j : ℕ) (rest : Members)
              → members_of es opts gs ≡ some rest
              → object_field_index es name gs ≡ some (some (j, f))
              → members_of es' opts (set_child gs j (with_value f c'))
                ≡ some (put_member rest name y))
          → members_of es' opts (set_child (cons g gs) i (with_value f c'))
            ≡ some (put_member ms name y)
      by_view _
            (field_view {s = s} {e = e} {k = kn} {v = v} {name = key} {x = x} {rest = rest} hn hx hr
              q)
            k again =
          let named = field_name-Keeps s e kn v in
          elim (Bool-cases (text_eq key name)) [
            | inl b ↦
                let here : some (some (0, node object_field s e (cons kn (cons v nil))))
                    ≡ some (some (i, f)) =
                  rw (hn, b) at k in
                let zero_i : 0 ≡ i = cc here in
                let same : node object_field s e (cons kn (cons v nil)) ≡ f = cc here in
                rw
                  (
                    ← zero_i,
                    ← same,
                    named c' key hn,
                    hy,
                    members_of-Keeps es es' opts keeps gs rest hr,
                    q,
                    b,
                  )
                  refl
            | inr b ↦
                let k2 : on_some (object_field_index es name gs) (λ o. some (further o))
                    ≡ some (some (i, f)) =
                  rw (hn, b) at k in
                let (o, ho, h2) = on_some_inv (object_field_index es name gs) _ (some (i, f)) k2 in
                let (j, qo, qi) = further_inv o i f (cc h2) in
                rw
                  (
                    ← qi,
                    named v key hn,
                    json_of-Keeps es es' opts keeps v x hx,
                    again j rest hr (ho ∙ ap (λ z. some z) qo),
                    q,
                    b,
                  )
                  refl
          ]
