-- ===== src/Tree/Comments/Runs.antt =====
-- json/meta.go: the leading and the trailing comments of a node are those of the run beside it.
use mathlib.Core.List.{reverse, reverse-cons, reverse-append, reverse-reverse}
use roundtrip.Base.{
  ℕ, ◌≡◌, refl, ap, sym, ◌∙◌, List, [], ◌∷◌, ◌++◌, true, false, Bool-cases, inl, inr, ◌==◌,
  if◌then◌else◌, All, All-append, append_assoc, append-nil, arith, subst,
}
use roundtrip.Decoder.{Node, start_of, end_of, is_comment}
use roundtrip.Token.{TokenType, anchor, comment, whitespace, newline}
use roundtrip.TokenList.Ranges.{behind, ahead, ahead_from}
use roundtrip.TokenList.Ranges.Cuts.{named}
use roundtrip.TokenList.{Elem}
use roundtrip.Tree.Comments.{
  Walk, pass, collect, stop, walk_at, is_stop, comments_forward, comments_backward, comments,
}

-- the comments among elements
abbrev pub comments_of : List Elem → List ℕ
comments_of [] = []
comments_of (e ∷ es) = if is_comment e.value.type then e.id ∷ comments_of es else comments_of es

-- whitespace, line breaks, anchors and comments
abbrev pub IsPassed : Elem → Type 0
IsPassed e = is_stop (walk_at e.value.type) ≡ false

-- No walk over comments goes beyond the first of the elements.
abbrev pub Stopped : List Elem → Type 0
Stopped [] = Unit
Stopped (e ∷ es) = is_stop (walk_at e.value.type) ≡ true

walk_stops :
    (t : TokenType) (xs ys : List ℕ)
    → is_stop (walk_at t) ≡ true
    → elim (walk_at t) as (λ w. List ℕ) [ pass ↦ xs | collect ↦ ys | stop ↦ [] ] ≡ []
walk_stops t xs ys h = by_walk (walk_at t) h
  where
    by_walk :
        (w : Walk)
        → is_stop w ≡ true
        → elim w as (λ w. List ℕ) [ pass ↦ xs | collect ↦ ys | stop ↦ [] ] ≡ []
    by_walk pass h = cc
    by_walk collect h = cc
    by_walk stop h = refl

walk_passes :
    (t : TokenType) (i : ℕ) (xs cs ys : List ℕ)
    → is_stop (walk_at t) ≡ false
    → xs ≡ cs ++ ys
    → elim (walk_at t) as (λ w. List ℕ) [ pass ↦ xs | collect ↦ i ∷ xs | stop ↦ [] ]
      ≡ (if is_comment t then i ∷ cs else cs) ++ ys
walk_passes whitespace i xs cs ys h e = e
walk_passes newline i xs cs ys h e = e
walk_passes anchor i xs cs ys h e = e
walk_passes comment i xs cs ys h e = ap (◌∷◌ i) e
walk_passes _ i xs cs ys h e = cc h

comments_forward-Stopped : (es : List Elem) → Stopped es → comments_forward es ≡ []
unfolding comments_forward
comments_forward-Stopped [] h = refl
comments_forward-Stopped (e ∷ es) h = walk_stops e.value.type _ _ h

comments_forward-append :
    (run es : List Elem)
    → All IsPassed run
    → comments_forward (run ++ es) ≡ comments_of run ++ comments_forward es
unfolding comments_forward
comments_forward-append [] es p = refl
comments_forward-append (e ∷ run) es (p, ps) =
    walk_passes e.value.type e.id _ _ _ p (comments_forward-append run es ps)

comments_of-append : (xs ys : List Elem) → comments_of (xs ++ ys) ≡ comments_of xs ++ comments_of ys
comments_of-append [] ys = refl
comments_of-append (x ∷ xs) ys = elim (Bool-cases (is_comment x.value.type)) [
  | inl y ↦ rw y (ap (◌∷◌ x.id) (comments_of-append xs ys))
  | inr n ↦ rw n (comments_of-append xs ys)
]

comments_of-reverse : (xs : List Elem) → comments_of (reverse xs) ≡ reverse (comments_of xs)
comments_of-reverse [] = refl
comments_of-reverse (x ∷ xs) =
    ap comments_of (reverse-cons x xs)
    ∙ comments_of-append (reverse xs) (x ∷ [])
    ∙ ap (λ l. l ++ comments_of (x ∷ [])) (comments_of-reverse xs)
    ∙ last_one
  where
    last_one : reverse (comments_of xs) ++ comments_of (x ∷ []) ≡ reverse (comments_of (x ∷ xs))
    last_one = elim (Bool-cases (is_comment x.value.type)) [
      | inl y ↦ rw y (sym (reverse-cons x.id (comments_of xs)))
      | inr n ↦ rw n (append-nil (reverse (comments_of xs)))
    ]

IsPassed-reverse : (xs : List Elem) → All IsPassed xs → All IsPassed (reverse xs)
IsPassed-reverse [] p = tt
IsPassed-reverse (x ∷ xs) (p, ps) =
    subst (All IsPassed) (sym (reverse-cons x xs))
      (All-append IsPassed (reverse xs) (x ∷ []) (IsPassed-reverse xs ps) (p, tt))

ahead_from-append :
    (seen xs : List Elem) (s : Elem) (ys : List Elem)
    → named s.id xs ≡ false
    → ahead_from seen (xs ++ s ∷ ys) s.id ≡ reverse xs ++ seen
unfolding ahead_from
ahead_from-append seen [] s ys n = ground arith
ahead_from-append seen (x ∷ xs) s ys n =
    let other : (x.id == s.id) ≡ false = ground arith in
    rw other (
      ahead_from-append (x ∷ seen) xs s ys (ground arith)
      ∙ sym (append_assoc (reverse xs) (x ∷ []) seen)
      ∙ ap (λ l. l ++ seen) (sym (reverse-cons x xs)))

behind-append :
    (xs : List Elem) (s : Elem) (ys : List Elem)
    → named s.id xs ≡ false
    → behind (xs ++ s ∷ ys) s.id ≡ ys
unfolding behind
behind-append [] s ys n = ground arith
behind-append (x ∷ xs) s ys n =
    let other : (x.id == s.id) ≡ false = ground arith in
    rw other (behind-append xs s ys (ground arith))

-- The token list holds `before`, `run`, the first element `s` of a node, and more; `run` holds
-- whitespace, line breaks, anchors and comments only, `before` is empty or ends with another token, and
-- no other element before `s` has its address. The leading comments of the node are the comments of
-- `run` in source order.
pub leading-run :
    (before run : List Elem) (s : Elem) (more : List Elem) (n : Node)
    → start_of n ≡ s.id
    → named s.id (before ++ run) ≡ false
    → All IsPassed run
    → Stopped (reverse before)
    → (comments (before ++ (run ++ s ∷ more)) n).leading ≡ comments_of run
unfolding comments ahead
leading-run before run s more n here once passed stopped = rw here (
    ap comments_backward walk
    ∙ ap reverse (
        comments_forward-append (reverse run) (reverse before) (IsPassed-reverse run passed)
        ∙ ap (λ l. comments_of (reverse run) ++ l)
            (comments_forward-Stopped (reverse before) stopped)
        ∙ append-nil (comments_of (reverse run))
        ∙ comments_of-reverse run)
    ∙ reverse-reverse (comments_of run))
  where
    walk : ahead_from [] (before ++ (run ++ s ∷ more)) s.id ≡ reverse run ++ reverse before
    walk =
        ap (λ l. ahead_from [] l s.id) (sym (append_assoc before run (s ∷ more)))
        ∙ ahead_from-append [] (before ++ run) s more once
        ∙ append-nil (reverse (before ++ run))
        ∙ reverse-append before run

-- The token list holds elements, the last element `e` of a node, `run`, and `after`; `run` holds
-- whitespace, line breaks, anchors and comments only, `after` is empty or starts with another token, and
-- no element before `e` has its address. The trailing comments of the node are the comments of `run`
-- in source order.
pub trailing-run :
    (before : List Elem) (e : Elem) (run after : List Elem) (n : Node)
    → end_of n ≡ e.id
    → named e.id before ≡ false
    → All IsPassed run
    → Stopped after
    → (comments (before ++ e ∷ (run ++ after)) n).trailing ≡ comments_of run
unfolding comments
trailing-run before e run after n here once passed stopped = rw here (
    ap comments_forward (behind-append before e (run ++ after) once)
    ∙ comments_forward-append run after passed
    ∙ ap (λ l. comments_of run ++ l) (comments_forward-Stopped after stopped)
    ∙ append-nil (comments_of run))
