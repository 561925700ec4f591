-- ===== src/Edit/Insertion/Places.antt =====
-- json/meta.go: a child is put at any index of a node.
use roundtrip.Base.{
  ℕ, ◌-◌, ◌≤◌, ◌≡◌, refl, ap, ◌∙◌, inl, inr, List, [], ◌∷◌, ◌++◌, true, false, Bool-cases, some,
  ◌==◌, if◌then◌else◌, arith, append_assoc, codes,
}
use roundtrip.Decoder.{Node, start_of, end_of}
use roundtrip.Edit.{
  done, elems_of, children, behind_comma, behind_gap, with_comma, spliced, insert_child_at,
}
use roundtrip.Token.{comma, Token, token}
use roundtrip.TokenList.Ranges.Cuts.{named}
use roundtrip.TokenList.{TokenList, values}
use roundtrip.Tree.{Handle, count, child, gap_tokens, leading_gap}
use roundtrip.Tree.Clones.{Within}
use roundtrip.Tree.Gaps.{leading_gap-IsLead, child_total, leading_gap_total}
use roundtrip.Edit.Insertion.{
  child_within, dressed, mark_of, spliced-ChildAt, values-behind_comma, start-Within, ChildAt,
  values-with_comma, gap_spaces, values-behind_gap, IsLead-IsSpace, children-Within,
}

module _ (n : Handle) (i : ℕ) (new : Node) (src : TokenList) where
  insert_only :
      (count (children n) == 0) ≡ true
      → insert_child_at n i (new, src)
        ≡ spliced n i new
            (start_of n.node)
            (some (behind_gap src (gap_tokens (elems_of n) (start_of n.node) (end_of n.node))))
  unfolding insert_child_at
  insert_only z = rw z refl

  insert_front :
      (c : Node)
      → (count (children n) == 0) ≡ false
      → (i == 0) ≡ true
      → child (children n) 0 ≡ some c
      → insert_child_at n i (new, src)
        ≡ spliced n i new (start_of n.node) (
            some (
              with_comma (behind_gap src (gap_tokens (elems_of n) (start_of n.node) (start_of c)))))
  unfolding insert_child_at
  insert_front c s y h = rw (s, y, h) refl

  insert_behind :
      (c : Node) (gap : List Token)
      → (count (children n) == 0) ≡ false
      → (i == 0) ≡ false
      → child (children n) (i - 1) ≡ some c
      → leading_gap
          (elems_of n)
          n.node
          (if i == count (children n) then count (children n) - 1 else i)
        ≡ some gap
      → insert_child_at n i (new, src) ≡ spliced n i new (end_of c) (some (behind_comma src gap))
  unfolding insert_child_at
  insert_behind c gap s k h g = rw (s, k, h, g) refl

  front_tokens :
      (gap : List Token)
      → values (with_comma (behind_gap src gap)).elems
        ≡ gap ++ (values src.elems ++ token comma (codes ",") ∷ [])
  front_tokens gap =
      values-with_comma (behind_gap src gap)
      ∙ ap (λ l. l ++ token comma (codes ",") ∷ []) (values-behind_gap src gap)
      ∙ append_assoc gap (values src.elems) (token comma (codes ",") ∷ [])

-- The node and its descendants start and end in the list: a child is put at any index up to the number
-- of children.
pub insert_child_at-ChildAt :
    (n : Handle) (i : ℕ) (new : Node) (src : TokenList)
    → Within (elems_of n) n.node
    → i ≤ count (children n)
    → (ts : TokenList) × (m : Node) × (insert_child_at n i (new, src) ≡ done ts m)
      × ChildAt n i new (values src.elems) ts m
unfolding mark_of dressed
insert_child_at-ChildAt n i new src w le =
    let es = elems_of n in
    let here = start-Within es n.node w in
    elim (Bool-cases (count (children n) == 0)) [
      | inl z ↦
          let first : (i == 0) ≡ true = ground arith in
          let (ts, m, p, q) =
            spliced-ChildAt n i new (start_of n.node)
              (behind_gap src (gap_tokens es (start_of n.node) (end_of n.node)))
              (gap_tokens es (start_of n.node) (end_of n.node)) (values src.elems) here
              (rw first refl) (gap_spaces es (start_of n.node) (end_of n.node))
              (rw z (values-behind_gap src _)) in
          (ts, m, insert_only n i new src z ∙ p, q)
      | inr s ↦ elim (Bool-cases (i == 0)) [
        | inl y ↦
            let (c, h) = child_total (children n) 0 (ground arith) in
            let (ts, m, p, q) =
              spliced-ChildAt n i new (start_of n.node)
                (with_comma (behind_gap src (gap_tokens es (start_of n.node) (start_of c))))
                (gap_tokens es (start_of n.node) (start_of c)) (values src.elems) here (rw y refl)
                (gap_spaces es (start_of n.node) (start_of c))
                (rw (s, y) (front_tokens n i new src _)) in
            (ts, m, insert_front n i new src c s y h ∙ p, q)
        | inr k ↦
            let (c, h, e) =
              child_within es (children n) (i - 1) (ground arith) (children-Within es n.node w) in
            let (gap, g) =
              leading_gap_total es n.node
                (if i == count (children n) then count (children n) - 1 else i) (ground arith) in
            behind w le s k c h e gap g
      ]
    ]
  where
    behind :
        Within (elems_of n) n.node
        → i ≤ count (children n)
        → (count (children n) == 0) ≡ false
        → (i == 0) ≡ false
        → (c : Node) → child (children n) (i - 1) ≡ some c
        → named (end_of c) (elems_of n) ≡ true
        → (gap : List Token)
        → leading_gap
            (elems_of n)
            n.node
            (if i == count (children n) then count (children n) - 1 else i)
          ≡ some gap
        → (ts : TokenList) × (m : Node) × (insert_child_at n i (new, src) ≡ done ts m)
          × ChildAt n i new (values src.elems) ts m
    behind w le s k c h e gap g =
        let (ts, m, p, q) =
          spliced-ChildAt n i new (end_of c) (behind_comma src gap) gap (values src.elems) e
            (rw (k, h) refl) (IsLead-IsSpace gap (leading_gap-IsLead (elems_of n) n.node _ gap g))
            (rw (s, k) (values-behind_comma src gap)) in
        (ts, m, insert_behind n i new src c gap s k h g ∙ p, q)
