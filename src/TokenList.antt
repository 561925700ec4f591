-- ===== src/TokenList.antt =====
-- The token list of a document, as the sequence of its elements: internal/list for the operations
-- that the decoder uses. An element is named by a number, which stands for its address.
pub mod Laws
pub mod Splits
pub mod Lookups
pub mod Ranges
use roundtrip.Base.{
  ℕ, ◌+◌, List, [], ◌∷◌, ◌++◌, Bool, Option, none, some, ◌==◌, if◌then◌else◌, Text,
}
use roundtrip.Token.{Token}

pub record Elem : Type 0 where
  pub id : ℕ
  pub value : Token

-- `fresh` is the next address that an allocation returns
pub record TokenList : Type 0 where
  pub elems : List Elem
  pub fresh : ℕ

abbrev pub new_list : ℕ → TokenList
new_list fresh = record { elems = []; fresh = fresh }

abbrev pub values : List Elem → List Token
values [] = []
values (e ∷ es) = e.value ∷ values es

-- `e.Value`, and `none` for an element that is not in the list
unfoldable pub value_at : List Elem → ℕ → Option Token
value_at [] i = none
value_at (e ∷ es) i = if e.id == i then some e.value else value_at es i

abbrev pub new_elem : TokenList → Token → Elem
new_elem l t = record { id = l.fresh; value = t }

-- `PushBack`
abbrev pub push_back : TokenList → Token → ℕ × TokenList
push_back l t = (l.fresh, record { elems = l.elems ++ new_elem l t ∷ []; fresh = l.fresh + 1 })

abbrev cons_to : Elem → Option (List Elem) → Option (List Elem)
cons_to e none = none
cons_to e (some es) = some (e ∷ es)

pub before : List Elem → ℕ → Elem → Option (List Elem)
before [] mark x = none
before (e ∷ es) mark x = if e.id == mark then some (x ∷ e ∷ es) else cons_to e (before es mark x)

unfoldable pub after : List Elem → ℕ → Elem → Option (List Elem)
after [] mark x = none
after (e ∷ es) mark x = if e.id == mark then some (e ∷ x ∷ es) else cons_to e (after es mark x)

unfoldable pub inserted : TokenList → Option (List Elem) → Option (ℕ × TokenList)
inserted l none = none
inserted l (some es) = some (l.fresh, record { elems = es; fresh = l.fresh + 1 })

-- `InsertBefore` and `InsertAfter`, which panic where `mark` is not in the list
unfoldable pub insert_before : TokenList → ℕ → Token → Option (ℕ × TokenList)
unfolding before inserted
insert_before l mark t = inserted l (before l.elems mark (new_elem l t))

unfoldable pub insert_after : TokenList → ℕ → Token → Option (ℕ × TokenList)
unfolding after inserted
insert_after l mark t = inserted l (after l.elems mark (new_elem l t))
