-- ===== src/Access/Selects.antt =====
-- json/path.go: the walks refine the selection of a value, by the segments of a path and by the tokens of a
-- JSON pointer.
use roundtrip.Access.{
  node_at, Segment, Cause, Op, access, Stepped, at_segment, pointer_token, Reached, found, lost,
  below, go_on, walk, at, bad_pointer, json_pointer, point, value_child,
}
use roundtrip.Access.Evaluates.{
  StepOk, stepped, stuck, select_segment, pointer_token-StepOk, at_segment-StepOk,
}
use roundtrip.Base.{
  ℕ, suc, ◌+◌, ◌<◌, ◌≡◌, refl, Text, List, [], ◌∷◌, Option, none, some, false, length, take, arith,
}
use roundtrip.Decoder.{Node}
use roundtrip.Json.Rfc.{NearRfc, select_all-NearRfc}
use roundtrip.Json.{Json, json_of, select, select_all}
use roundtrip.Pointer.{parse_json_pointer}
use roundtrip.Syntax.{SyntaxOptions}
use roundtrip.TokenList.{Elem}

module _ {S : Type 0} (es : List Elem) (opts : SyntaxOptions) (choose : S → Json → Option Json)
    (op : Op) where
  -- what a walk of `ss` behind `k` others ends with: the node that stands for the selected value, or the
  -- error at the first segment that selects nothing
  pub data Selected (n : Node) (v : Json) (k : ℕ) (ss : List S) : Reached → Type 0 where
    selected :
        {is : List ℕ} {m : Node} {x : Json}
        → select_all choose ss v ≡ some x
        → node_at n is ≡ some m
        → json_of es opts m ≡ some x
        → Selected n v k ss (found is m)
    missing :
        {i j : ℕ} {c : Cause} {y : Json}
        → j ≡ k + i
        → i < length ss
        → select_all choose (take i ss) v ≡ some y
        → select_all choose (take (suc i) ss) v ≡ none
        → select_all choose ss v ≡ none
        → Selected n v k ss (lost (record { op = op; index = some j; cause = c }))

  Selected-below :
      {n m : Node} {v x : Json} {k : ℕ} {s : S} {ss : List S} {r : Reached} (i : ℕ)
      → choose s v ≡ some x
      → value_child n i ≡ some m
      → Selected m x (k + 1) ss r
      → Selected n v k (s ∷ ss) (below i r)
  Selected-below i q c (selected a b d) = selected (rw (q, a) refl) (rw (c, b) refl) d
  Selected-below _ q c (missing {i = i} {y = y} e l a b d) =
      missing {i = suc i} {y = y} (omega arith) (omega arith) (rw (q, a) refl) (rw (q, b) refl)
        (rw (q, d) refl)

  module _ (step : Node → S → Stepped)
      (step-StepOk : (n : Node) (v : Json) (s : S)
        → json_of es opts n ≡ some v
        → StepOk es opts n (choose s v) (step n s)) where
    pub walk-Selected :
        (k : ℕ) (ss : List S) (n : Node) (v : Json)
        → json_of es opts n ≡ some v
        → Selected n v k ss (walk step op k ss n)
    unfolding walk
    walk-Selected k [] n v h = selected refl refl h
    walk-Selected k (s ∷ ss) n v h =
        by_step (step n s) (step-StepOk n v s h) (walk-Selected (k + 1) ss)
      where
        by_step :
            (r : Stepped)
            → StepOk es opts n (choose s v) r
            → ((m : Node) (x : Json)
                → json_of es opts m ≡ some x
                → Selected m x (k + 1) ss (walk step op (k + 1) ss m))
            → Selected n v k (s ∷ ss) (go_on op k r (walk step op (k + 1) ss))
        by_step _ (stepped {i = i} {m = m} {x = x} q hx c) again =
            Selected-below i q c (again m x hx)
        by_step _ (stuck q) again =
            missing {i = 0} {y = v} (omega arith) (omega arith) refl (rw q refl) (rw q refl)

module _ (es : List Elem) (opts : SyntaxOptions) where
  -- The node stands for the value `v`. `At` returns the node that stands for what the segments of the path
  -- select in `v`, at its position, or, where they select nothing, an error with the index of the first
  -- segment that selects nothing.
  pub at-Selected :
      (n : Node) (v : Json) (path : List Segment)
      → json_of es opts n ≡ some v
      → Selected es opts select_segment access n v 0 path (at es n path)
  unfolding at
  at-Selected n v path h =
      walk-Selected es opts select_segment access (at_segment es)
        (λ n v s. at_segment-StepOk es opts n v s) 0 path n v h

  pub pointer_walk-Selected :
      (op : Op) (tokens : List Text) (n : Node) (v : Json)
      → json_of es opts n ≡ some v
      → Selected es opts select op n v 0 tokens (walk (pointer_token es false) op 0 tokens n)
  pointer_walk-Selected op tokens n v h =
      walk-Selected es opts select op (pointer_token es false)
        (λ n v s. pointer_token-StepOk es opts n v s) 0 tokens n v h

  pub data Pointed (n : Node) (v : Json) (pointer : Text) : Reached → Type 0 where
    evaluated :
        {tokens : List Text} {r : Reached}
        → parse_json_pointer pointer ≡ some tokens
        → Selected es opts select access n v 0 tokens r
        → NearRfc tokens v
        → Pointed n v pointer r
    malformed : parse_json_pointer pointer ≡ none → Pointed n v pointer (lost (bad_pointer access))

  -- The node stands for the value `v`. `JSONPointer` refuses a pointer that does not parse; else it returns
  -- the node that stands for what the tokens select in `v`, at its position, or, where they select nothing,
  -- an error with the index of the first token that selects nothing. It never panics. A token selects the
  -- member of its name or the element at its index, which may have a sign and leading zeros; all tokens
  -- together select what they select by RFC 6901, or one of them has a sign or a leading zero and they
  -- select nothing by RFC 6901.
  pub json_pointer-Pointed :
      (n : Node) (v : Json) (pointer : Text)
      → json_of es opts n ≡ some v
      → Pointed n v pointer (json_pointer es n pointer)
  unfolding json_pointer
  json_pointer-Pointed n v pointer h = by_tokens (parse_json_pointer pointer) refl
    where
      by_tokens :
          (o : Option (List Text))
          → parse_json_pointer pointer ≡ o
          → Pointed n v pointer (point es n o)
      by_tokens none q = malformed q
      by_tokens (some tokens) q =
          evaluated q (pointer_walk-Selected access tokens n v h) (select_all-NearRfc tokens v)
