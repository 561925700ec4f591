-- ===== src/Json/Pointers.antt =====
-- Where a JSON pointer inserts a value.
use roundtrip.Access.{all_but_last}
use roundtrip.Base.{
  [], ℕ, ◌≡◌, refl, Text, codes, List, ◌∷◌, false, Option, none, some, if◌then◌else◌, leb, text_eq,
}
use roundtrip.Changes.{last}
use roundtrip.Json.Insertion.{insert_item, append_member, size}
use roundtrip.Json.Updates.{put_all}
use roundtrip.Json.{
  Json, members, items, string, number, boolean, null_value, Items, lookup, select, select_all,
  is_container,
}
use roundtrip.Pointer.Positional.{index_of}
use roundtrip.Tree.{on_some}

-- RFC 6902, section 4.1, without the replacement of a member: a new member behind the others, an item at an
-- index or at the end
abbrev pub unless_member : Option Json → Json → Option Json
unless_member none v = some v
unless_member (some y) v = none

abbrev pub insert_index : Items → Json → ℕ → Option Json
insert_index vs x i = if leb i (size vs) then some (items (insert_item vs i x)) else none

abbrev pub insert_value : Text → Json → Json → Option Json
insert_value token x (members ms) =
    unless_member (lookup ms token) (members (append_member ms token x))
insert_value token x (items vs) =
    if text_eq token (codes "-")
    then some (items (insert_item vs (size vs) x))
    else on_some (index_of token) (insert_index vs x)
insert_value token x _ = none

-- the insertion of `x` where the tokens point in `v`
abbrev pub insert_at_pointer : List Text → Json → Json → Option Json
insert_at_pointer [] x v = none
insert_at_pointer (t ∷ ts) x v =
    on_some (select_all select (all_but_last (t ∷ ts)) v)
      λ p. on_some (insert_value (last t ts) x p) λ q. put_all (all_but_last (t ∷ ts)) q v

pub insert_value-scalar :
    (token : Text) (x v : Json) → is_container v ≡ false → insert_value token x v ≡ none
insert_value-scalar token x (members ms) h = cc h
insert_value-scalar token x (items vs) h = cc h
insert_value-scalar token x (string t) h = refl
insert_value-scalar token x (number t) h = refl
insert_value-scalar token x (boolean t) h = refl
insert_value-scalar token x (null_value t) h = refl
