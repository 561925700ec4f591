-- ===== src/Edit/Insertion.antt =====
-- json/meta.go: where a new child goes in the token list, and with which tokens.
pub mod Places
pub mod Elements
pub mod Lists
pub mod Values
pub mod Members
use roundtrip.Base.{
  ℕ, zero, suc, ◌+◌, ◌-◌, ◌<◌, ◌≤◌, ◌≡◌, refl, ap, sym, ◌∙◌, inl, inr, List, [], ◌∷◌, ◌++◌, Bool,
  true, false, Bool-cases, Option, none, some, ◌==◌, if◌then◌else◌, All, arith, append_assoc,
  append-nil, codes, subst,
}
use roundtrip.Decoder.{Node, node, Nodes, nil, cons, start_of, end_of}
use roundtrip.Edit.{
  Edited, done, elems_of, children, with_children, insert_child, push_all, list_of, behind_comma,
  behind_gap, with_comma, edited, spliced, at_mark, insert_child_at,
}
use roundtrip.Token.{comma, Token, token}
use roundtrip.TokenList.Ranges.{insert_list_after, splice_after, with_elems}
use roundtrip.TokenList.Ranges.Cuts.{named}
use roundtrip.TokenList.{Elem, TokenList, values}
use roundtrip.Tree.{Handle, count, child, children_of, gap_tokens, leading_gap, on_some}
use roundtrip.Tree.Clones.{Within, AllWithin}
use roundtrip.Tree.Gaps.{
  IsSpace, IsLead, leading_gap-IsLead, gap_tokens-Stops, child_total, leading_gap_total,
}

pub values-append : (xs ys : List Elem) → values (xs ++ ys) ≡ values xs ++ values ys
values-append [] ys = refl
values-append (x ∷ xs) ys = ap (◌∷◌ x.value) (values-append xs ys)

values-push_all :
    (g : List Token) (ts : TokenList) → values (push_all ts g).elems ≡ values ts.elems ++ g
values-push_all [] ts = sym (append-nil (values ts.elems))
values-push_all (t ∷ g) ts =
    values-push_all g _
    ∙ ap (λ l. l ++ g) (values-append ts.elems (record { id = ts.fresh; value = t } ∷ []))
    ∙ append_assoc (values ts.elems) (t ∷ []) g

-- A list is spliced in behind the element `mark`.
pub record SplicedAt (es : List Elem) (mark : ℕ) (new : List Elem) (fs : List Elem) : Type 0 where
  pub left : List Elem
  pub at : Elem
  pub right : List Elem
  pub before : es ≡ left ++ at ∷ right
  pub named : at.id ≡ mark
  pub after : fs ≡ left ++ at ∷ (new ++ right)

splice_after-SplicedAt :
    (es : List Elem) (mark : ℕ) (new : List Elem)
    → named mark es ≡ true
    → (fs : List Elem) × (splice_after es mark new ≡ some fs) × SplicedAt es mark new fs
unfolding splice_after
splice_after-SplicedAt [] mark new h = cc
splice_after-SplicedAt (e ∷ es) mark new h = elim (Bool-cases (e.id == mark)) [
  | inl y ↦ (
    e ∷ (new ++ es),
    rw y refl,
    record { left = []; at = e; right = es; before = refl; named = ground arith; after = refl },
  )
  | inr n ↦
      let (fs, p, s) = splice_after-SplicedAt es mark new (rw n at h) in
      (
        e ∷ fs,
        rw (n, p) refl,
        record {
          left = e ∷ s.left;
          at = s.at;
          right = s.right;
          before = ap (◌∷◌ e) s.before;
          named = s.named;
          after = ap (◌∷◌ e) s.after;
        },
      )
]

pub child_within :
    (es : List Elem) (ns : Nodes) (i : ℕ)
    → i < count ns
    → AllWithin es ns
    → (c : Node) × (child ns i ≡ some c) × (named (end_of c) es ≡ true)
unfolding child Within AllWithin
child_within es nil i lt w = absurd (omega arith)
child_within es (cons (node t s e cs) ns) zero lt ((a, b, c), w) = (node t s e cs, refl, b)
child_within es (cons n ns) (suc i) lt (_, w) = child_within es ns i (omega arith) w

pub IsLead-IsSpace : (ts : List Token) → IsLead ts → All IsSpace ts
IsLead-IsSpace [] h = tt
IsLead-IsSpace (t ∷ ts) (a, b, c) = (a, b)

-- the tokens of a new child at index `i` among `len` others: a gap, and a comma on the side of the others
pub dressed : ℕ → ℕ → List Token → List Token → List Token
dressed len i gap child =
    if len == 0
    then gap ++ child
    else if i == 0
    then gap ++ (child ++ token comma (codes ",") ∷ [])
    else token comma (codes ",") ∷ (gap ++ child)

-- the element behind which a new child goes: the first of the node, or the last of the child before
pub mark_of : Node → ℕ → Option ℕ
mark_of n i =
    if i == 0
    then some (start_of n)
    else on_some (child (children_of n) (i - 1)) λ c. some (end_of c)

-- A child with the tokens `child` was put at index `i` into the node, and its tokens into the list.
pub record ChildAt (n : Handle) (i : ℕ) (new : Node) (child : List Token) (ts : TokenList)
    (m : Node) : Type 0 where
  pub gap : List Token
  pub spaces : All IsSpace gap
  pub mark : ℕ
  pub marks : mark_of n.node i ≡ some mark
  pub elems : List Elem
  pub tokens : values elems ≡ dressed (count (children n)) i gap child
  pub place : SplicedAt (elems_of n) mark elems ts.elems
  pub tree : m ≡ with_children n.node (insert_child (children n) i new)

pub spliced-ChildAt :
    (n : Handle) (i : ℕ) (new : Node) (mark : ℕ) (src : TokenList) (gap tokens : List Token)
    → named mark (elems_of n) ≡ true
    → mark_of n.node i ≡ some mark
    → All IsSpace gap
    → values src.elems ≡ dressed (count (children n)) i gap tokens
    → (ts : TokenList) × (m : Node) × (spliced n i new mark (some src) ≡ done ts m)
      × ChildAt n i new tokens ts m
unfolding spliced insert_list_after with_elems
spliced-ChildAt n i new mark src gap tokens nm mk sp vs =
    let (fs, p, s) = splice_after-SplicedAt (elems_of n) mark src.elems nm in
    (
      record { elems = fs; fresh = src.fresh },
      with_children n.node (insert_child (children n) i new),
      rw p refl,
      record {
        gap = gap;
        spaces = sp;
        mark = mark;
        marks = mk;
        elems = src.elems;
        tokens = vs;
        place = s;
        tree = refl;
      },
    )

pub values-behind_gap :
    (ts : TokenList) (gap : List Token) → values (behind_gap ts gap).elems ≡ gap ++ values ts.elems
values-behind_gap ts gap =
    values-append (list_of ts.fresh gap).elems ts.elems
    ∙ ap (λ l. l ++ values ts.elems) (values-push_all gap _)

pub values-behind_comma :
    (ts : TokenList) (gap : List Token)
    → values (behind_comma ts gap).elems ≡ token comma (codes ",") ∷ (gap ++ values ts.elems)
values-behind_comma ts gap = ap (◌∷◌ (token comma (codes ","))) (
    values-append (list_of (ts.fresh + 1) gap).elems ts.elems
    ∙ ap (λ l. l ++ values ts.elems) (values-push_all gap _))

pub values-with_comma :
    (ts : TokenList)
    → values (with_comma ts).elems ≡ values ts.elems ++ token comma (codes ",") ∷ []
values-with_comma ts =
    values-append ts.elems (record { id = ts.fresh; value = token comma (codes ",") } ∷ [])

pub start-Within : (es : List Elem) (n : Node) → Within es n → named (start_of n) es ≡ true
unfolding Within AllWithin
start-Within es (node t s e cs) (a, b, c) = a

pub children-Within : (es : List Elem) (n : Node) → Within es n → AllWithin es (children_of n)
unfolding Within AllWithin
children-Within es (node t s e cs) (a, b, c) = c

pub gap_spaces : (es : List Elem) (first last : ℕ) → All IsSpace (gap_tokens es first last)
gap_spaces es first last = let (_, _, _, _, s, _) = gap_tokens-Stops es first last in s
