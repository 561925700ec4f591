-- ===== src/Tree/Gaps.antt =====
-- json/meta.go: what the gaps hold that the source puts before a new child.
use roundtrip.Base.{
  ℕ, ◌<◌, arith, zero, suc, subst, ◌≡◌, refl, ap, List, [], ◌∷◌, ◌++◌, some, ◌==◌, Bool, true,
  false, Bool-cases, inl, inr, All, All-append, ◌||◌, not,
}
use roundtrip.Decoder.{Node, Nodes, nil, cons, start_of, end_of, is_space_token}
use roundtrip.Token.{TokenType, comma, comment, newline, whitespace, Token}
use roundtrip.Tree.{count, child, children_of, gap_from, gap_tokens, leading_from, leading_gap}
use roundtrip.Tree.Copies.{on_some_inv}
use roundtrip.TokenList.{Elem, values}
use roundtrip.TokenList.Ranges.{behind}

abbrev pub IsSpace : Token → Type 0
IsSpace t = is_space_token t.type ≡ true

-- where a walk over spaces stops: at the end, at the element `last`, or at a token that is no space
abbrev pub Stops : ℕ → List Elem → Type 0
Stops last [] = Unit
Stops last (e ∷ es) = ((e.id == last) || not (is_space_token e.value.type)) ≡ true

gap_from-Stops :
    (last : ℕ) (fs : List Elem)
    → (gap rest : List Elem) × (fs ≡ gap ++ rest)
      × (gap_from last fs ≡ values gap)
      × All IsSpace (gap_from last fs)
      × Stops last rest
unfolding gap_from
gap_from-Stops last [] = ([], [], refl, refl, tt, tt)
gap_from-Stops last (e ∷ fs) = elim (Bool-cases (e.id == last)) [
  | inl y ↦ ([], e ∷ fs, refl, rw y refl, rw y tt, rw y refl)
  | inr n ↦ elim (Bool-cases (is_space_token e.value.type)) [
    | inr o ↦ ([], e ∷ fs, refl, rw (n, o) refl, rw (n, o) tt, rw (n, o) refl)
    | inl s ↦
        let (gap, rest, a, b, c, d) = gap_from-Stops last fs in
        (e ∷ gap, rest, ap (◌∷◌ e) a, rw (n, s) (ap (◌∷◌ e.value) b), rw (n, s) (s, c), d)
  ]
]

-- `gapTokens` from an element to `last` returns whitespace and line breaks only: those that stand
-- behind the element, up to `last` or to the first token of another kind.
pub gap_tokens-Stops :
    (es : List Elem) (first last : ℕ)
    → (gap rest : List Elem) × (behind es first ≡ gap ++ rest)
      × (gap_tokens es first last ≡ values gap)
      × All IsSpace (gap_tokens es first last)
      × Stops last rest
unfolding gap_tokens
gap_tokens-Stops es first last = gap_from-Stops last (behind es first)

abbrev pub is_newline_token : TokenType → Bool
is_newline_token newline = true
is_newline_token _ = false

abbrev NoBreak : Token → Type 0
NoBreak t = is_newline_token t.type ≡ false

-- Spaces with at most one line break, which comes first.
abbrev pub IsLead : List Token → Type 0
IsLead [] = Unit
IsLead (t ∷ ts) = IsSpace t × All IsSpace ts × All NoBreak ts

IsLead-append :
    (ts : List Token) (t : Token) → IsLead ts → IsSpace t → NoBreak t → IsLead (ts ++ t ∷ [])
IsLead-append [] t l s n = (s, tt, tt)
IsLead-append (x ∷ xs) t (s', a, b) s n =
    (s', All-append IsSpace xs (t ∷ []) a (s, tt), All-append NoBreak xs (t ∷ []) b (n, tt))

leading_from-IsLead :
    (last : ℕ) (kept : List Token) (es : List Elem)
    → IsLead kept
    → IsLead (leading_from last kept es)
unfolding leading_from
leading_from-IsLead last kept [] l = l
leading_from-IsLead last kept (e ∷ es) l =
    by_end (λ k. leading_from-IsLead last k es) (e.id == last)
  where
    by_type :
        ((k : List Token) → IsLead k → IsLead (leading_from last k es))
        → (t : TokenType) → e.value.type ≡ t
        → IsLead (elim t [
          | comma ↦ leading_from last [] es
          | comment ↦ leading_from last [] es
          | newline ↦ leading_from last (e.value ∷ []) es
          | whitespace ↦ leading_from last (kept ++ e.value ∷ []) es
          | _ ↦ kept
        ])
    by_type again comma h = again [] tt
    by_type again comment h = again [] tt
    by_type again newline h = again (e.value ∷ []) (rw h refl, tt, tt)
    by_type again whitespace h =
        again (kept ++ e.value ∷ []) (IsLead-append kept e.value l (rw h refl) (rw h refl))
    by_type again _ h = l

    by_end :
        ((k : List Token) → IsLead k → IsLead (leading_from last k es))
        → (b : Bool)
        → IsLead (elim b [
          | true ↦ kept
          | false ↦ elim e.value.type [
            | comma ↦ leading_from last [] es
            | comment ↦ leading_from last [] es
            | newline ↦ leading_from last (e.value ∷ []) es
            | whitespace ↦ leading_from last (kept ++ e.value ∷ []) es
            | _ ↦ kept
          ]
        ])
    by_end again true = l
    by_end again false = by_type again e.value.type refl

-- `leadingGap`, where it returns, returns whitespace with at most one line break, which comes first.
pub leading_gap-IsLead :
    (es : List Elem) (n : Node) (i : ℕ) (gap : List Token)
    → leading_gap es n i ≡ some gap
    → IsLead gap
unfolding leading_gap
leading_gap-IsLead es n zero gap h =
    let (c, _, k) = on_some_inv (child (children_of n) 0) _ gap h in
    subst IsLead (cc k) (leading_from-IsLead (start_of c) [] (behind es (start_of n)) tt)
leading_gap-IsLead es n (suc i) gap h =
    let (p, _, h1) = on_some_inv (child (children_of n) i) _ gap h in
    let (c, _, k) = on_some_inv (child (children_of n) (suc i)) _ gap h1 in
    subst IsLead (cc k) (leading_from-IsLead (start_of c) [] (behind es (end_of p)) tt)

pub child_total : (ns : Nodes) (i : ℕ) → i < count ns → (c : Node) × (child ns i ≡ some c)
unfolding child
child_total nil i lt = absurd (omega arith)
child_total (cons n ns) zero lt = (n, refl)
child_total (cons n ns) (suc i) lt = child_total ns i (omega arith)

-- `leadingGap` of a child that is there returns.
pub leading_gap_total :
    (es : List Elem) (n : Node) (i : ℕ)
    → i < count (children_of n)
    → (gap : List Token) × (leading_gap es n i ≡ some gap)
unfolding leading_gap
leading_gap_total es n zero lt =
    let (c, h) = child_total (children_of n) 0 lt in
    (leading_from (start_of c) [] (behind es (start_of n)), rw h refl)
leading_gap_total es n (suc i) lt =
    let (p, a) = child_total (children_of n) i (omega arith) in
    let (c, h) = child_total (children_of n) (suc i) lt in
    (leading_from (start_of c) [] (behind es (end_of p)), rw (a, h) refl)
