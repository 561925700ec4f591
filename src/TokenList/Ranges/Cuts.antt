-- ===== src/TokenList/Ranges/Cuts.antt =====
-- What the cutting of a list at a range finds, and what the walks see of a range.
use roundtrip.Base.{
  ℕ, ◌≡◌, ap, sym, ◌∙◌, List, [], ◌∷◌, ◌++◌, some, ◌==◌, Bool, true, false, Bool-cases, inl, inr,
  Option-cases, if◌then◌else◌, arith,
}
use roundtrip.TokenList.{Elem}
use roundtrip.TokenList.Ranges.{Range, through, cut, from}

-- an element of that name is in the list
abbrev pub named : ℕ → List Elem → Bool
named i [] = false
named i (e ∷ es) = if e.id == i then true else named i es

-- The range that is cut out of a list starts with `first`, and ends with the first `last` in it.
pub record Cuts (es : List Elem) (a b : ℕ) (r : Range) : Type 0 where
  pub parts : es ≡ r.left ++ (r.inside ++ r.right)
  pub starts : from es a ≡ r.inside ++ r.right
  pub ends :
      through b (r.inside ++ r.right)
      ≡ some (record { left = []; inside = r.inside; right = r.right })

through-left :
    (b : ℕ) (es : List Elem) (r : Range)
    → through b es ≡ some r
    → (r.left ≡ []) × (es ≡ r.inside ++ r.right)
unfolding through
through-left b [] r h = cc
through-left b (e ∷ es) r h = elim (Bool-cases (e.id == b)) [
  | inl y ↦ (ground arith, ground arith)
  | inr n ↦ elim (Option-cases (through b es)) [
    | inl o ↦ absurd (ground arith)
    | inr (s, o) ↦
        let (x, y) = through-left b es s o in
        let q : r ≡ record s { inside = e ∷ s.inside } = ground arith in rw q (x, ap (◌∷◌ e) y)
  ]
]

pub cut-Cuts : (es : List Elem) (a b : ℕ) (r : Range) → cut es a b ≡ some r → Cuts es a b r
unfolding cut from
cut-Cuts [] a b r h = cc
cut-Cuts (e ∷ es) a b r h = elim (Bool-cases (e.id == a)) [
  | inl y ↦
      let t : through b (e ∷ es) ≡ some r = rw y at h in
      let (x, z) = through-left b (e ∷ es) r t in
      record {
        parts = rw x z;
        starts = rw y z;
        ends = ap (through b) (sym z) ∙ t ∙ ap (λ l. some (record r { left = l })) x;
      }
  | inr n ↦ elim (Option-cases (cut es a b)) [
    | inl o ↦ absurd (ground arith)
    | inr (s, o) ↦
        let c = cut-Cuts es a b s o in
        let q : r ≡ record s { left = e ∷ s.left } = ground arith in
        rw q (record { parts = ap (◌∷◌ e) c.parts; starts = rw n c.starts; ends = c.ends })
  ]
]
