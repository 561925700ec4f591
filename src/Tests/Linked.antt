-- ===== src/Tests/Linked.antt =====
-- internal/list at a concrete store: the list 0 holds the tokens `1` and `2`, the list 1 a comma.
use roundtrip.Base.{zero, suc, ℕ, ◌≡◌, refl, [], ◌∷◌, codes, none, some, arith}
use roundtrip.Linked.Insert.{Spares}
use roundtrip.Linked.Refines.{Inserted, view, after_mark, in_heap, in_heap-Inserted}
use roundtrip.Linked.Remove.{IsFree, remove-IsList}
use roundtrip.Linked.Segments.{IsList}
use roundtrip.Linked.Splice.{splice-IsList}
use roundtrip.Linked.{Cell, Header, Heap, ok, remove, splice, values}
use roundtrip.Linked.Values.{values-IsList}
use roundtrip.Token.{number, comma, Token, token}
use roundtrip.TokenList.{Elem, insert_after as insert_after_in, after, inserted}

abbrev one : Elem
one = record { id = 0; value = token number (codes "1") }

abbrev two : Elem
two = record { id = 1; value = token number (codes "2") }

abbrev separator : Elem
separator = record { id = 2; value = token comma (codes ",") }

abbrev cells : ℕ → Cell
cells zero = record { prev = none; next = some 1; list = some 0; value = one.value }
cells (suc zero) = record { prev = some 0; next = none; list = some 0; value = two.value }
cells _ = record { prev = none; next = none; list = some 1; value = separator.value }

abbrev headers : ℕ → Header
headers zero = record { head = some 0; tail = some 1; len = 2 }
headers _ = record { head = some 2; tail = some 2; len = 1 }

abbrev store : Heap
store = record { cell = cells; header = headers; fresh = 3 }

numbers-IsList : IsList store 0 (one ∷ two ∷ [])
numbers-IsList = record {
  head = refl;
  tail = refl;
  len = refl;
  seg = (refl, (refl, tt));
  distinct = (refl, (refl, tt));
  below = (omega arith, (omega arith, tt));
}

separator-IsList : IsList store 1 (separator ∷ [])
separator-IsList = record {
  head = refl;
  tail = refl;
  len = refl;
  seg = (refl, tt);
  distinct = (refl, tt);
  below = (omega arith, tt);
}

abbrev minus : Token
minus = token number (codes "-3")

behind_one :
    insert_after_in (view store (one ∷ two ∷ [])) 0 minus
    ≡ some (3, record { elems = one ∷ record { id = 3; value = minus } ∷ two ∷ []; fresh = 4 })
unfolding insert_after_in after inserted
behind_one = refl

in_heap-Inserted_example :
    Inserted store 0
      (one ∷ two ∷ [])
      3
      (record { elems = one ∷ record { id = 3; value = minus } ∷ two ∷ []; fresh = 4 })
      (in_heap 0 (after_mark 0 minus) store)
in_heap-Inserted_example =
    in_heap-Inserted (after_mark 0 minus) 3
      (record { elems = one ∷ record { id = 3; value = minus } ∷ two ∷ []; fresh = 4 })
      numbers-IsList behind_one

remove-IsList_example :
    (g : Heap) × (remove 0 1 store ≡ ok two.value g)
    × IsList g 0 (one ∷ [])
    × IsFree g 1
    × Spares store g 0 (one ∷ two ∷ [])
remove-IsList_example = remove-IsList (one ∷ []) [] two numbers-IsList

splice-IsList_example :
    (g : Heap) × (splice 0 (some 0) (some 1) 1 store ≡ ok tt g)
    × IsList g 0 (one ∷ separator ∷ two ∷ [])
    × IsList g 1 []
splice-IsList_example =
    splice-IsList (one ∷ []) (two ∷ []) separator [] numbers-IsList separator-IsList refl (refl, tt)
      (refl, tt)

values-IsList_example : values 0 store ≡ ok (one.value ∷ two.value ∷ []) store
values-IsList_example = values-IsList numbers-IsList
