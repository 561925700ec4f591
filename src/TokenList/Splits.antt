-- ===== src/TokenList/Splits.antt =====
-- Where the insertions in the sequence of elements insert.
use roundtrip.Base.{
  ℕ, ◌+◌, ◌≡◌, refl, ap, sym, ◌∙◌, List, [], ◌∷◌, ◌++◌, ◌==◌, Bool-cases, inl, inr, Option-cases,
  Option, none, some, ◌≢◌, append_assoc, arith,
}
use roundtrip.Token.{Token}
use roundtrip.TokenList.{
  Elem, TokenList, before, after, inserted, new_elem, insert_before, insert_after,
}

before-Split :
    (es fs : List Elem) (mark : ℕ) (x : Elem)
    → before es mark x ≡ some fs
    → (xs : List Elem) × (m : Elem) × (ys : List Elem) × (es ≡ xs ++ m ∷ ys)
      × (fs ≡ xs ++ x ∷ m ∷ ys)
      × (m.id ≡ mark)
unfolding before
before-Split [] fs mark x h = cc
before-Split (e ∷ es) fs mark x h = elim (Bool-cases (e.id == mark)) [
  | inl y ↦ ([], e, es, refl, ground arith, ground arith)
  | inr n ↦ elim (Option-cases (before es mark x)) [
    | inl o ↦ absurd (ground arith)
    | inr (gs, o) ↦
        let (xs, m, ys, a, b, c) = before-Split es gs mark x o in
        (e ∷ xs, m, ys, ap (◌∷◌ e) a, ground arith, c)
  ]
]

after-Split :
    (es fs : List Elem) (mark : ℕ) (x : Elem)
    → after es mark x ≡ some fs
    → (xs : List Elem) × (m : Elem) × (ys : List Elem) × (es ≡ xs ++ m ∷ ys)
      × (fs ≡ xs ++ m ∷ x ∷ ys)
      × (m.id ≡ mark)
unfolding after
after-Split [] fs mark x h = cc
after-Split (e ∷ es) fs mark x h = elim (Bool-cases (e.id == mark)) [
  | inl y ↦ ([], e, es, refl, ground arith, ground arith)
  | inr n ↦ elim (Option-cases (after es mark x)) [
    | inl o ↦ absurd (ground arith)
    | inr (gs, o) ↦
        let (xs, m, ys, a, b, c) = after-Split es gs mark x o in
        (e ∷ xs, m, ys, ap (◌∷◌ e) a, ground arith, c)
  ]
]

-- `ts` becomes `us` by an insertion of `v` between `xs` and `ys`.
pub record InsertSplit (ts : TokenList) (v : Token) (i : ℕ) (us : TokenList) (xs ys : List Elem)
    : Type 0 where
  pub elems : ts.elems ≡ xs ++ ys
  pub result : us ≡ record { elems = xs ++ new_elem ts v ∷ ys; fresh = ts.fresh + 1 }
  pub name : i ≡ ts.fresh

inserted_eq :
    (ts : TokenList) (o : Option (List Elem)) (fs : List Elem) (i : ℕ) (us : TokenList)
    → inserted ts o ≡ some (i, us)
    → o ≡ some fs
    → (us ≡ record { elems = fs; fresh = ts.fresh + 1 }) × (i ≡ ts.fresh)
unfolding inserted
inserted_eq ts o fs i us h e = let k = rw e at h in (cc, cc)

no_insertion : (ts : TokenList) (i : ℕ) (us : TokenList) → inserted ts none ≢ some (i, us)
unfolding inserted
no_insertion ts i us h = cc

pub insert_before-InsertSplit :
    (ts : TokenList) (mark : ℕ) (v : Token) (i : ℕ) (us : TokenList)
    → insert_before ts mark v ≡ some (i, us)
    → (xs : List Elem) × (m : Elem) × (ys : List Elem) × (m.id ≡ mark)
      × InsertSplit ts v i us xs (m ∷ ys)
unfolding insert_before
insert_before-InsertSplit ts mark v i us h =
    elim (Option-cases (before ts.elems mark (new_elem ts v))) [
      | inl o ↦ absurd (no_insertion ts i us (rw o at h))
      | inr (fs, o) ↦
          let (xs, m, ys, a, b, c) = before-Split ts.elems fs mark (new_elem ts v) o in
          let (e, n) = inserted_eq ts _ fs i us h o in
          (
            xs,
            m,
            ys,
            c,
            record {
              elems = a;
              result = e ∙ ap {B = TokenList} (λ x. record { elems = x; fresh = ts.fresh + 1 }) b;
              name = n;
            },
          )
    ]

pub insert_after-InsertSplit :
    (ts : TokenList) (mark : ℕ) (v : Token) (i : ℕ) (us : TokenList)
    → insert_after ts mark v ≡ some (i, us)
    → (xs : List Elem) × (m : Elem) × (ys : List Elem) × (m.id ≡ mark)
      × InsertSplit ts v i us (xs ++ m ∷ []) ys
unfolding insert_after
insert_after-InsertSplit ts mark v i us h =
    elim (Option-cases (after ts.elems mark (new_elem ts v))) [
      | inl o ↦ absurd (no_insertion ts i us (rw o at h))
      | inr (fs, o) ↦
          let (xs, m, ys, a, b, c) = after-Split ts.elems fs mark (new_elem ts v) o in
          let (e, n) = inserted_eq ts _ fs i us h o in
          (
            xs,
            m,
            ys,
            c,
            record {
              elems = a ∙ sym (append_assoc xs (m ∷ []) ys);
              result =
                  e
                  ∙ ap {B = TokenList} (λ x. record { elems = x; fresh = ts.fresh + 1 })
                      (b ∙ sym (append_assoc xs (m ∷ []) (new_elem ts v ∷ ys)));
              name = n;
            },
          )
    ]
