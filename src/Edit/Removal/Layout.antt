-- ===== src/Edit/Removal/Layout.antt =====
-- json/meta.go: what the removal of a field or an element takes out of the token list.
use roundtrip.Base.{
  ℕ, suc, ◌-◌, ◌<◌, ◌≡◌, refl, ap, sym, ◌∙◌, List, [], ◌∷◌, ◌++◌, true, false, none, some, ◌==◌,
  ltb, Text, arith, append_assoc, subst,
}
use roundtrip.Decoder.{Node, start_of, end_of}
use roundtrip.Edit.Removal.{
  drop_child, first_id, comma_before, remove_child_range, remove_range, remove_child, remove_found,
  remove_object_field, remove_array_value,
}
use roundtrip.Edit.{Edited, done, elems_of, children, with_children, is_object, is_array}
use roundtrip.Linked.Segments.{has, Distinct}
use roundtrip.TokenList.Ranges.{through, cut, behind, ahead, ahead_from, replace_range, replaced}
use roundtrip.TokenList.Ranges.Cuts.{named}
use roundtrip.TokenList.{Elem}
use roundtrip.Tree.{Handle, count, child, children_of, type_of, object_field_index}

has_between :
    (xs : List Elem) (e : Elem) (ys : List Elem) (i : ℕ)
    → has i (xs ++ e ∷ ys) ≡ false
    → (i == e.id) ≡ false
has_between [] e ys i h = ground arith
has_between (x ∷ xs) e ys i h = has_between xs e ys i (ground arith)

Distinct-named :
    (xs : List Elem) (e : Elem) (ys : List Elem) → Distinct (xs ++ e ∷ ys) → named e.id xs ≡ false
Distinct-named [] e ys d = refl
Distinct-named (x ∷ xs) e ys (h, d) =
    let other = has_between xs e ys x.id h in let rest = Distinct-named xs e ys d in ground arith

Distinct-right : (xs ys : List Elem) → Distinct (xs ++ ys) → Distinct ys
Distinct-right [] ys d = d
Distinct-right (x ∷ xs) ys (h, d) = Distinct-right xs ys d

-- a list that is not empty has a last element, and a first
last_of : (x : Elem) (xs : List Elem) → (ys : List Elem) × (y : Elem) × (x ∷ xs ≡ ys ++ y ∷ [])
last_of x [] = ([], x, refl)
last_of x (z ∷ zs) = let (ys, y, e) = last_of z zs in (x ∷ ys, y, ap (◌∷◌ x) e)

first_of : (ys : List Elem) (y : Elem) → (x : Elem) × (xs : List Elem) × (ys ++ y ∷ [] ≡ x ∷ xs)
first_of [] y = (y, [], refl)
first_of (z ∷ zs) y = (z, zs ++ y ∷ [], refl)

through-here :
    (xs : List Elem) (y : Elem) (ys : List Elem)
    → named y.id xs ≡ false
    → through y.id (xs ++ y ∷ ys) ≡ some (record { left = []; inside = xs ++ y ∷ []; right = ys })
unfolding through
through-here [] y ys n = ground arith
through-here (x ∷ xs) y ys n =
    let other : (x.id == y.id) ≡ false = ground arith in
    rw (other, through-here xs y ys (ground arith)) refl

cut-here :
    (xs : List Elem) (a : Elem) (inside : List Elem) (y : Elem) (ws right : List Elem)
    → named a.id xs ≡ false
    → a ∷ ws ≡ inside ++ y ∷ []
    → named y.id inside ≡ false
    → cut (xs ++ (a ∷ ws ++ right)) a.id y.id
      ≡ some (record { left = xs; inside = a ∷ ws; right = right })
unfolding cut
cut-here [] a inside y ws right n e m =
    let here : (a.id == a.id) ≡ true = ground arith in
    rw here (
      ap (through y.id) (ap (λ l. l ++ right) e ∙ append_assoc inside (y ∷ []) right)
      ∙ through-here inside y right m
      ∙ ap (λ l. some (record { left = []; inside = l; right = right })) (sym e))
cut-here (x ∷ xs) a inside y ws right n e m =
    let other : (x.id == a.id) ≡ false = ground arith in
    rw (other, cut-here xs a inside y ws right (ground arith) e m) refl

first_ahead :
    (seen xs : List Elem) (y s : Elem) (ys : List Elem)
    → named s.id (xs ++ y ∷ []) ≡ false
    → first_id (ahead_from seen (xs ++ y ∷ s ∷ ys) s.id) ≡ some y.id
unfolding ahead_from
first_ahead seen [] y s ys n = ground arith
first_ahead seen (x ∷ xs) y s ys n =
    let other : (x.id == s.id) ≡ false = ground arith in
    rw other (first_ahead (x ∷ seen) xs y s ys (ground arith))

behind-here :
    (xs : List Elem) (p : Elem) (ys : List Elem)
    → named p.id xs ≡ false
    → behind (xs ++ p ∷ ys) p.id ≡ ys
unfolding behind
behind-here [] p ys n = ground arith
behind-here (x ∷ xs) p ys n =
    let other : (x.id == p.id) ≡ false = ground arith in
    rw other (behind-here xs p ys (ground arith))

-- What the child at index `i` of a node takes with it: `gone` stands behind `before`, and starts and ends
-- with `a` and `b`. With another child behind it, the child takes all that stands from its start to the
-- start of that child; as the last of several, all that stands behind the child before it, to its own
-- end; as the only one, itself, where no comma follows.
pub data Takes (n : Node) (before gone after : List Elem) (a b : Elem) : ℕ → Type 0 where
  followed :
      {i : ℕ} {c d : Node} (x : Elem) (more : List Elem)
      → child (children_of n) i ≡ some c
      → child (children_of n) (suc i) ≡ some d
      → suc i < count (children_of n)
      → a.id ≡ start_of c
      → after ≡ x ∷ more
      → x.id ≡ start_of d
      → Takes n before gone after a b i
  last :
      {i : ℕ} {p c : Node} (x : Elem) (more : List Elem)
      → child (children_of n) i ≡ some p
      → child (children_of n) (suc i) ≡ some c
      → count (children_of n) ≡ suc (suc i)
      → before ≡ more ++ x ∷ []
      → x.id ≡ end_of p
      → b.id ≡ end_of c
      → Takes n before gone after a b (suc i)
  alone :
      {c : Node}
      → child (children_of n) 0 ≡ some c
      → count (children_of n) ≡ 1
      → a.id ≡ start_of c
      → b.id ≡ end_of c
      → comma_before (end_of n) after ≡ none
      → Takes n before gone after a b 0

module _ (es : List Elem) (n : Node) (before gone after : List Elem) (a b : Elem)
    (xs ys : List Elem) (parts : es ≡ before ++ (gone ++ after)) (d : Distinct es)
    (starts : gone ≡ a ∷ xs) (ends : gone ≡ ys ++ b ∷ []) where
  as_last : es ≡ (before ++ ys) ++ b ∷ after
  as_last =
      parts
      ∙ ap (λ l. before ++ (l ++ after)) ends
      ∙ ap (λ l. before ++ l) (append_assoc ys (b ∷ []) after)
      ∙ sym (append_assoc before ys (b ∷ after))

  as_first : es ≡ before ++ a ∷ (xs ++ after)
  as_first = parts ∙ ap (λ l. before ++ (l ++ after)) starts

  before_next :
      (x : Elem) (more : List Elem) → after ≡ x ∷ more → first_id (ahead es x.id) ≡ some b.id
  unfolding ahead
  before_next x more f =
      let here : es ≡ (before ++ ys) ++ b ∷ x ∷ more =
        as_last ∙ ap (λ l. (before ++ ys) ++ b ∷ l) f in
      let once =
        Distinct-named ((before ++ ys) ++ b ∷ []) x more
          (subst Distinct (here ∙ sym (append_assoc (before ++ ys) (b ∷ []) (x ∷ more))) d) in
      ap (λ l. first_id (ahead_from [] l x.id)) here ∙ first_ahead [] (before ++ ys) b x more once

  behind_previous :
      (x : Elem) (more : List Elem)
      → before ≡ more ++ x ∷ []
      → first_id (behind es x.id) ≡ some a.id
  behind_previous x more f =
      let here : es ≡ more ++ x ∷ (a ∷ (xs ++ after)) =
        as_first
        ∙ ap (λ l. l ++ a ∷ (xs ++ after)) f
        ∙ append_assoc more (x ∷ []) (a ∷ (xs ++ after)) in
      let once = Distinct-named more x (a ∷ (xs ++ after)) (subst Distinct here d) in
      ap (λ l. first_id (behind l x.id)) here
      ∙ ap first_id (behind-here more x (a ∷ (xs ++ after)) once)

  behind_last : behind es b.id ≡ after
  behind_last =
      ap (λ l. behind l b.id) as_last
      ∙ behind-here (before ++ ys) b after
          (Distinct-named (before ++ ys) b after (subst Distinct as_last d))

  cut_taken : cut es a.id b.id ≡ some (record { left = before; inside = gone; right = after })
  cut_taken =
      let first_once = Distinct-named before a (xs ++ after) (subst Distinct as_first d) in
      let last_once = Distinct-named ys b after (
        Distinct-right before (ys ++ b ∷ after)
          (subst Distinct (as_last ∙ append_assoc before ys (b ∷ after)) d)) in
      ap (λ l. cut l a.id b.id) as_first
      ∙ cut-here before a ys b xs after first_once (sym starts ∙ ends) last_once
      ∙ ap (λ l. some (record { left = before; inside = l; right = after })) (sym starts)

  range_taken :
      {i : ℕ} → Takes n before gone after a b i → remove_child_range es n i ≡ some (a.id, b.id)
  unfolding remove_child_range
  range_taken {i} (followed x more hc hd lt s f t) =
      let several : (count (children_of n) == 1) ≡ false = ground arith in
      let not_last : ltb i (count (children_of n) - 1) ≡ true = ground arith in
      rw (hc, several, not_last, hd, ← s, ← t, before_next x more f) refl
  range_taken (last {i} x more hp hc len f t e) =
      let several : (count (children_of n) == 1) ≡ false = ground arith in
      let is_last : ltb (suc i) (count (children_of n) - 1) ≡ false = ground arith in
      let previous : suc i - 1 ≡ i = omega arith in
      rw (hc, several, is_last, previous, hp, ← t, ← e, behind_previous x more f) refl
  range_taken (alone hc len s e none_left) =
      let one : (count (children_of n) == 1) ≡ true = ground arith in
      rw (hc, one, ← s, ← e, behind_last, none_left) refl

module _ (n : Handle) (before gone after : List Elem) (a b : Elem) (xs ys : List Elem)
    (parts : elems_of n ≡ before ++ (gone ++ after)) (d : Distinct (elems_of n))
    (starts : gone ≡ a ∷ xs) (ends : gone ≡ ys ++ b ∷ []) (i : ℕ)
    (takes : Takes n.node before gone after a b i) where
  abbrev pub without : Edited
  without =
      done (record { elems = before ++ after; fresh = n.owner.tokens.fresh })
        (with_children n.node (drop_child (children n) i))

  remove_child-without : remove_child n i ≡ without
  unfolding remove_child remove_range replace_range replaced
  remove_child-without =
      rw
        (
          range_taken (elems_of n) n.node before gone after a b xs ys parts d starts ends takes,
          cut_taken (elems_of n) n.node before gone after a b xs ys parts d starts ends,
        )
        refl

  -- The elements of the document's token list are distinct, and the list holds `before`, `gone` and
  -- `after`, where `gone` is what the child at index `i` takes with it: all that stands from its start to
  -- the start of the child behind it, or, as the last of several, all that stands behind the child before
  -- it, to its own end, or, as the only child with no comma behind it, itself. For an array with an
  -- element at `i`, `RemoveArrayValue` takes `gone` out of the list and the element out of the node, and
  -- leaves all else as it is.
  pub remove_array_value-without :
      is_array (type_of n.node) ≡ true → i < count (children n) → remove_array_value n i ≡ without
  unfolding remove_array_value
  remove_array_value-without k lt =
      let inside : ltb i (count (children n)) ≡ true = ground arith in
      rw (k, inside) remove_child-without

  -- The same conditions hold, and `objectFieldIndex` finds the name at the index `i` of an object.
  -- `RemoveObjectField` takes `gone` out of the list and the field out of the node, and leaves all else
  -- as it is.
  pub remove_object_field-without :
      (name : Text) (field : Node)
      → is_object (type_of n.node) ≡ true
      → object_field_index (elems_of n) name (children n) ≡ some (some (i, field))
      → remove_object_field n name ≡ without
  unfolding remove_object_field remove_found
  remove_object_field-without name field k f = rw (k, f) remove_child-without
