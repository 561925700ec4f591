-- ===== src/Equality/Agreement.antt =====
-- json/patch.go: the equality of nodes is the equality of their values, where the numbers are plain.
use roundtrip.Pointer.Positional.{index_of}
use roundtrip.Tree.Copies.{on_some_inv}
use roundtrip.Tree.{on_some}
use roundtrip.Base.{
  ℕ, zero, suc, List, [], ◌∷◌, ◌≡◌, refl, Text, Bool, Option, none, some, Bool-cases, inl, inr,
  text_eq,
}
use roundtrip.Equality.Numerals.{number_equal, Plain}
use roundtrip.Equality.Shapes.{found_equal, json_equal_by, json_equal, all_members, all_items}
use roundtrip.Equality.Words.{json_numbers_equal-number_equal}
use roundtrip.Equality.{json_numbers_equal}
use roundtrip.Json.{
  Json, members, items, string, number, boolean, null_value, Items, none_left, item, Members, end,
  member, lookup, nth, select, select_all,
}

-- every number of the value is plain
unfoldable mutual
  pub PlainNumbers : Json → Type 0
  PlainNumbers (members ms) = PlainMembers ms
  PlainNumbers (items vs) = PlainItems vs
  PlainNumbers (number s) = Plain s
  PlainNumbers _ = Unit

  pub PlainMembers : Members → Type 0
  PlainMembers end = Unit
  PlainMembers (member k v ms) = PlainNumbers v × PlainMembers ms

  pub PlainItems : Items → Type 0
  PlainItems none_left = Unit
  PlainItems (item v vs) = PlainNumbers v × PlainItems vs

abbrev PlainFound : Option Json → Type 0
PlainFound none = Unit
PlainFound (some v) = PlainNumbers v

lookup-PlainFound : (ms : Members) (name : Text) → PlainMembers ms → PlainFound (lookup ms name)
unfolding PlainMembers lookup
lookup-PlainFound end name h = tt
lookup-PlainFound (member k v ms) name (h, hs) = elim (Bool-cases (text_eq k name)) [
  | inl y ↦ rw y h
  | inr n ↦ rw n (lookup-PlainFound ms name hs)
]

nth-PlainFound : (vs : Items) (i : ℕ) → PlainItems vs → PlainFound (nth vs i)
unfolding PlainItems nth
nth-PlainFound none_left i h = tt
nth-PlainFound (item v vs) zero (h, hs) = h
nth-PlainFound (item v vs) (suc i) (h, hs) = nth-PlainFound vs i hs

select-PlainFound : (token : Text) (v : Json) → PlainNumbers v → PlainFound (select token v)
unfolding PlainNumbers
select-PlainFound token (members ms) h = lookup-PlainFound ms token h
select-PlainFound token (items vs) h = by_index (index_of token)
  where
    by_index : (o : Option ℕ) → PlainFound (on_some o (nth vs))
    by_index none = tt
    by_index (some i) = nth-PlainFound vs i h
select-PlainFound token (string t) h = tt
select-PlainFound token (number t) h = tt
select-PlainFound token (boolean t) h = tt
select-PlainFound token (null_value t) h = tt

-- What is selected in a value whose numbers are plain has plain numbers.
pub select_all-PlainNumbers :
    (tokens : List Text) (v y : Json)
    → PlainNumbers v
    → select_all select tokens v ≡ some y
    → PlainNumbers y
select_all-PlainNumbers [] v y h q = let e : v ≡ y = cc q in rw (← e) h
select_all-PlainNumbers (t ∷ ts) v y h q =
    let (x, hx, k) = on_some_inv (select t v) _ y q in
    select_all-PlainNumbers ts x y (found x (select t v) (select-PlainFound t v h) hx) k
  where
    found : (x : Json) (o : Option Json) → PlainFound o → o ≡ some x → PlainNumbers x
    found x none h e = cc e
    found x (some z) h e = let p : z ≡ x = cc e in rw (← p) h

found_agree :
    (o : Option Json) (f g : Json → Bool)
    → PlainFound o
    → ((w : Json) → PlainNumbers w → f w ≡ g w)
    → found_equal o f ≡ found_equal o g
found_agree none f g h e = refl
found_agree (some w) f g h e = e w h

mutual
  unfolding json_equal_by all_members all_items PlainNumbers PlainMembers PlainItems

  pub json_equal_by-json_equal :
      (v w : Json)
      → PlainNumbers v
      → PlainNumbers w
      → json_equal_by json_numbers_equal v w ≡ json_equal v w
  json_equal_by-json_equal (members ms) (members ns) h k = rw (members_agree ms ns h k) refl
  json_equal_by-json_equal (items vs) (items ws) h k = rw (items_agree vs ws h k) refl
  json_equal_by-json_equal (number s) (number t) h k = json_numbers_equal-number_equal s t h k
  json_equal_by-json_equal (string s) (string t) h k = refl
  json_equal_by-json_equal (boolean s) (boolean t) h k = refl
  json_equal_by-json_equal (null_value s) (null_value t) h k = refl
  json_equal_by-json_equal _ _ h k = refl

  members_agree :
      (ms ns : Members)
      → PlainMembers ms
      → PlainMembers ns
      → all_members json_numbers_equal ms ns ≡ all_members number_equal ms ns
  members_agree end ns h k = refl
  members_agree (member name v ms) ns (h, hs) k =
      let first =
        found_agree (lookup ns name) (λ w. json_equal_by json_numbers_equal v w)
          (λ w. json_equal v w) (lookup-PlainFound ns name k)
          (λ w hw. json_equal_by-json_equal v w h hw) in
      let rest = members_agree ms ns hs k in rw (first, rest) refl

  items_agree :
      (vs ws : Items)
      → PlainItems vs
      → PlainItems ws
      → all_items json_numbers_equal vs ws ≡ all_items number_equal vs ws
  items_agree (item v vs) (item w ws) (h, hs) (k, ks) =
      rw (json_equal_by-json_equal v w h k, items_agree vs ws hs ks) refl
  items_agree _ _ h k = refl
