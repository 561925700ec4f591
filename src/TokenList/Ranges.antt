-- ===== src/TokenList/Ranges.antt =====
-- internal/list/list.go on sequences: walks from an element, ranges of elements, and lists that are
-- moved into another list. A list that is made later than another has the higher `fresh`.
pub mod Cuts
use roundtrip.Base.{ℕ, ◌+◌, List, [], ◌∷◌, ◌++◌, Option, none, some, ◌==◌, if◌then◌else◌}
use roundtrip.Token.{Token}
use roundtrip.TokenList.{Elem, TokenList, new_elem}

-- the elements from the one named `i` on
unfoldable pub from : List Elem → ℕ → List Elem
from [] i = []
from (e ∷ es) i = if e.id == i then e ∷ es else from es i

-- the elements behind the one named `i`: the walk that starts at its `Next`
unfoldable pub behind : List Elem → ℕ → List Elem
behind [] i = []
behind (e ∷ es) i = if e.id == i then es else behind es i

-- the elements before the one named `i`, the nearest first: the walk that starts at its `Prev`
unfoldable pub ahead_from : List Elem → List Elem → ℕ → List Elem
ahead_from seen [] i = []
ahead_from seen (e ∷ es) i = if e.id == i then seen else ahead_from (e ∷ seen) es i

unfoldable pub ahead : List Elem → ℕ → List Elem
unfolding ahead_from
ahead es i = ahead_from [] es i

-- a list, cut before and behind a range
pub record Range : Type 0 where
  pub left : List Elem
  pub inside : List Elem
  pub right : List Elem

abbrev pub map_range : (Range → Range) → Option Range → Option Range
map_range f none = none
map_range f (some r) = some (f r)

-- the range that starts here and ends with `last`
unfoldable pub through : ℕ → List Elem → Option Range
through last [] = none
through last (e ∷ es) =
    let rest = through last es in
    if e.id == last
    then some (record { left = []; inside = e ∷ []; right = es })
    else map_range (λ r. record r { inside = e ∷ r.inside }) rest

-- `checkRange`, with the range that it finds; `none` is its panic
unfoldable pub cut : List Elem → ℕ → ℕ → Option Range
cut [] first last = none
cut (e ∷ es) first last =
    let rest = cut es first last in
    if e.id == first
    then through last (e ∷ es)
    else map_range (λ r. record r { left = e ∷ r.left }) rest

unfoldable pub replaced : TokenList → Option Range → Option TokenList
replaced src none = none
replaced src (some r) =
    some (record { elems = r.left ++ (src.elems ++ r.right); fresh = src.fresh })

-- `ReplaceRange`
unfoldable pub replace_range : TokenList → ℕ → ℕ → TokenList → Option TokenList
unfolding replaced
replace_range ts first last src = replaced src (cut ts.elems first last)

abbrev behind_mark : Elem → Option (List Elem) → Option (List Elem)
behind_mark e none = none
behind_mark e (some es) = some (e ∷ es)

unfoldable pub splice_after : List Elem → ℕ → List Elem → Option (List Elem)
splice_after [] mark src = none
splice_after (e ∷ es) mark src =
    let rest = splice_after es mark src in
    if e.id == mark then some (e ∷ src ++ es) else behind_mark e rest

unfoldable pub with_elems : TokenList → Option (List Elem) → Option TokenList
with_elems src none = none
with_elems src (some es) = some (record { elems = es; fresh = src.fresh })

-- `InsertListAfter`
unfoldable pub insert_list_after : TokenList → ℕ → TokenList → Option TokenList
unfolding with_elems
insert_list_after ts mark src = with_elems src (splice_after ts.elems mark src.elems)

-- `PushFront`
abbrev pub push_front : TokenList → Token → ℕ × TokenList
push_front ts t = (ts.fresh, record { elems = new_elem ts t ∷ ts.elems; fresh = ts.fresh + 1 })

-- `PushFrontList` and `PushBackList` of a list that is made later
abbrev pub push_front_list : TokenList → TokenList → TokenList
push_front_list ts src = record { elems = src.elems ++ ts.elems; fresh = src.fresh }

abbrev pub push_back_list : TokenList → TokenList → TokenList
push_back_list ts src = record { elems = ts.elems ++ src.elems; fresh = src.fresh }

-- the copies that `CloneRange` makes of elements, the first of them at the address `n`
unfoldable pub copies : List Elem → ℕ → List Elem
copies [] n = []
copies (e ∷ es) n = record { id = n; value = e.value } ∷ copies es (n + 1)

-- its map from the elements to their copies
unfoldable pub copy_of : List Elem → ℕ → ℕ → Option ℕ
copy_of [] n i = none
copy_of (e ∷ es) n i = if e.id == i then some n else copy_of es (n + 1) i
