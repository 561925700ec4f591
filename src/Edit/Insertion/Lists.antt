-- ===== src/Edit/Insertion/Lists.antt =====
-- json/meta.go: the token list behind the insertion of a child keeps the values of the old elements and
-- has those of the child's.
use roundtrip.Base.{
  ℕ, ◌+◌, ◌-◌, ◌<◌, ◌≤◌, ◌≡◌, ap, ◌∙◌, inl, inr, List, [], ◌∷◌, false, Bool-cases, Option-cases,
  some, ◌==◌, if◌then◌else◌, arith,
}
use roundtrip.Decoder.{Node, start_of, end_of}
use roundtrip.Edit.Replace.{Older}
use roundtrip.Edit.{
  done, elems_of, children, with_children, push_all, list_of, behind_comma, behind_gap, with_comma,
  insert_child, spliced, insert_child_at,
}
use roundtrip.Json.Frames.{Keeps}
use roundtrip.Token.{Token}
use roundtrip.TokenList.Lookups.{
  Newer, Newer-weaken, Newer-Apart, Older-Apart, Newer-append, value_at-left, value_at-right,
  value_at-Older, value_at-Newer, splice_after-keeps, splice_after-holds,
}
use roundtrip.TokenList.Ranges.{splice_after, insert_list_after, with_elems}
use roundtrip.TokenList.{TokenList, value_at, push_back}
use roundtrip.Tree.{Handle, count, child, gap_tokens, leading_gap}

-- the tokens of a child with a gap and a comma
pub data Built (ts : TokenList) : TokenList → Type 0 where
  gap_before : (gap : List Token) → Built ts (behind_gap ts gap)
  gap_and_comma : (gap : List Token) → Built ts (with_comma (behind_gap ts gap))
  comma_and_gap : (gap : List Token) → Built ts (behind_comma ts gap)

push_all-Newer :
    (g : List Token) (ts : TokenList) (k : ℕ)
    → Newer ts.elems k
    → k ≤ ts.fresh
    → Newer (push_all ts g).elems k
push_all-Newer [] ts k h l = h
push_all-Newer (t ∷ g) ts k h l =
    push_all-Newer g (push_back ts t).1 k (Newer-append ts.elems _ k h (l, tt)) (omega arith)

list_of-Newer : (g : List Token) (k : ℕ) → Newer (list_of k g).elems k
list_of-Newer g k = push_all-Newer g _ k tt (omega arith)

push_all-fresh : (g : List Token) (ts : TokenList) → ts.fresh ≤ (push_all ts g).fresh
push_all-fresh [] ts = omega arith
push_all-fresh (t ∷ g) ts = let h = push_all-fresh g (push_back ts t).1 in omega arith

pub Built-Newer :
    {ts src : TokenList} (k : ℕ)
    → Built ts src
    → Newer ts.elems k
    → k ≤ ts.fresh
    → Newer src.elems k
Built-Newer {ts} k (gap_before g) h l =
    Newer-append _ ts.elems k (Newer-weaken _ k ts.fresh (list_of-Newer g ts.fresh) l) h
Built-Newer {ts} k (gap_and_comma g) h l =
    let more : ts.fresh ≤ (list_of ts.fresh g).fresh = push_all-fresh g _ in
    let le : k ≤ (list_of ts.fresh g).fresh = omega arith in
    Newer-append (behind_gap ts g).elems _ k
      (Newer-append _ ts.elems k (Newer-weaken _ k ts.fresh (list_of-Newer g ts.fresh) l) h)
      (le, tt)
Built-Newer {ts} k (comma_and_gap g) h l = (
  l,
  Newer-append _ ts.elems k
      (Newer-weaken _ k (ts.fresh + 1) (list_of-Newer g (ts.fresh + 1)) (omega arith)) h,
)

pub Built-holds :
    {ts src : TokenList} (i : ℕ) (t : Token)
    → Built ts src
    → value_at ts.elems i ≡ some t
    → i < ts.fresh
    → value_at src.elems i ≡ some t
unfolding value_at
Built-holds {ts} i t (gap_before g) h l =
    value_at-right _ ts.elems i (Newer-Apart _ ts.fresh i (list_of-Newer g ts.fresh) l) ∙ h
Built-holds {ts} i t (gap_and_comma g) h l =
    value_at-left (behind_gap ts g).elems _ i t
      (value_at-right _ ts.elems i (Newer-Apart _ ts.fresh i (list_of-Newer g ts.fresh) l) ∙ h)
Built-holds {ts} i t (comma_and_gap g) h l =
    let other : (ts.fresh == i) ≡ false = ground arith in
    rw other (
      value_at-right _ ts.elems i
        (Newer-Apart _ (ts.fresh + 1) i (list_of-Newer g (ts.fresh + 1)) (omega arith))
      ∙ h)

spliced_inv :
    (n : Handle) (i : ℕ) (new : Node) (mark : ℕ) (src fs : TokenList) (m : Node)
    → spliced n i new mark (some src) ≡ done fs m
    → (splice_after (elems_of n) mark src.elems ≡ some fs.elems)
      × (with_children n.node (insert_child (children n) i new) ≡ m)
unfolding spliced insert_list_after with_elems
spliced_inv n i new mark src fs m h =
    elim (Option-cases (splice_after (elems_of n) mark src.elems)) [
      | inl o ↦ cc (rw o at h)
      | inr (es, o) ↦
          let d : done (record { elems = es; fresh = src.fresh })
                (with_children n.node (insert_child (children n) i new))
              ≡ done fs m =
            rw o at h in
          let q : record { elems = es; fresh = src.fresh } ≡ fs = cc d in
          (o ∙ ap (λ l. some l.elems) q, cc d)
    ]

-- a child's tokens `src` were put into the list, and the child into the tree
pub record Carried (n : Handle) (i : ℕ) (new : Node) (src fs : TokenList) (m : Node) : Type 0 where
  pub keeps : Keeps (elems_of n) fs.elems
  pub holds :
      (j : ℕ) (t : Token)
      → value_at src.elems j ≡ some t
      → j < src.fresh
      → value_at fs.elems j ≡ some t
  pub tree : with_children n.node (insert_child (children n) i new) ≡ m

module _ (n : Handle) (i : ℕ) (new : Node) (src fs : TokenList) (m : Node) (k : ℕ)
    (older : Older (elems_of n) k) (newer : Newer src.elems k) (le : k ≤ src.fresh) where
  spliced-Carried :
      (mark : ℕ) (built : TokenList)
      → Built src built
      → spliced n i new mark (some built) ≡ done fs m
      → Carried n i new src fs m
  spliced-Carried mark built b h =
      let (p, q) = spliced_inv n i new mark built fs m h in
      record {
        keeps = λ j t v.
            splice_after-keeps (elems_of n) mark built.elems fs.elems j t p
              (Newer-Apart built.elems k j (Built-Newer k b newer le)
                (value_at-Older (elems_of n) k j t v older))
              v;
        holds = λ j t v l.
            splice_after-holds (elems_of n) mark built.elems fs.elems j t p
              (Older-Apart (elems_of n) k j older (value_at-Newer src.elems k j t v newer))
              (Built-holds j t b v l);
        tree = q;
      }

  pub insert_child_at-Carried :
      insert_child_at n i (new, src) ≡ done fs m → Carried n i new src fs m
  unfolding insert_child_at spliced
  insert_child_at-Carried h = elim (Bool-cases (count (children n) == 0)) [
    | inl z ↦
        spliced-Carried _ _ (gap_before (gap_tokens (elems_of n) (start_of n.node) (end_of n.node)))
          (rw z at h)
    | inr z ↦ elim (Bool-cases (i == 0)) [
      | inl y ↦ elim (Option-cases (child (children n) 0)) [
        | inl o ↦ cc (rw (z, y, o) at h)
        | inr (c, o) ↦
            spliced-Carried _ _
              (gap_and_comma (gap_tokens (elems_of n) (start_of n.node) (start_of c)))
              (rw (z, y, o) at h)
      ]
      | inr y ↦ elim (Option-cases (child (children n) (i - 1))) [
        | inl o ↦ cc (rw (z, y, o) at h)
        | inr (c, o) ↦
            elim (Option-cases (
              leading_gap (elems_of n) n.node
                (if i == count (children n) then count (children n) - 1 else i))) [
                  | inl g ↦ cc (rw (z, y, o, g) at h)
                  | inr (gap, g) ↦ spliced-Carried _ _ (comma_and_gap gap) (rw (z, y, o, g) at h)
                ]
      ]
    ]
  ]
