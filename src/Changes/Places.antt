-- ===== src/Changes/Places.antt =====
-- json/path.go: a change by a path or a pointer is the change of the node that is selected.
use roundtrip.Access.Evaluates.{select_segment}
use roundtrip.Access.Selects.{Selected, selected, missing, at-Selected, pointer_walk-Selected}
use roundtrip.Access.{
  value_child, node_at, node_value, flat, Segment, Cause, edit, Op, access, replace, insert, remove,
  Reached, all_but_last, pointer_parent, bad_pointer,
}
use roundtrip.Base.{
  ℕ, zero, suc, ◌<◌, ◌≡◌, refl, ap, sym, ◌∙◌, Text, List, [], ◌∷◌, Option, none, some, length, take,
  arith,
}
use roundtrip.Changes.{
  Failure, in_path, Changed, changed, failure, crash, starved, with_value, set_value, set_at,
  Attempt, attempt, deny, settle, handle_at, change_at, at_index_of, last, along_path,
  along_pointer, no_path, remove_token, insert_token, replace_token, replace_whole, remove_segment,
  insert_segment, replace_segment, remove_json_pointer, insert_json_pointer, replace_json_pointer,
  remove_at, insert_at, replace_at,
}
use roundtrip.Chars.{Unicode}
use roundtrip.Decoder.{Node, node, Nodes, nil, cons}
use roundtrip.Edit.Renaming.{set_child}
use roundtrip.Edit.{EditError, done, failed, panicked, no_fuel, elems_of}
use roundtrip.Json.Rfc.{NearRfc, select_all-NearRfc}
use roundtrip.Json.{Json, json_of, select, select_all}
use roundtrip.Pointer.{parse_json_pointer}
use roundtrip.Syntax.{SyntaxOptions}
use roundtrip.Token.{object_field, array_element}
use roundtrip.TokenList.{TokenList}
use roundtrip.Tree.Copies.{on_some_inv}
use roundtrip.Tree.{Handle, child}

child-set_child :
    (cs : Nodes) (i : ℕ) (c d : Node) → child cs i ≡ some c → child (set_child cs i d) i ≡ some d
unfolding child
child-set_child nil i c d h = cc h
child-set_child (cons e cs) zero c d h = refl
child-set_child (cons e cs) (suc i) c d h = child-set_child cs i c d h

with_value_lem :
    (c v m : Node) → flat (node_value c) ≡ some v → flat (node_value (with_value c m)) ≡ some m
unfolding child
with_value_lem (node object_field s e nil) v m h = cc h
with_value_lem (node object_field s e (cons k nil)) v m h = cc h
with_value_lem (node object_field s e (cons k (cons w ws))) v m h = refl
with_value_lem (node array_element s e nil) v m h = cc h
with_value_lem (node array_element s e (cons w ws)) v m h = refl
with_value_lem _ v m h = cc h

value_child-set_value :
    (n : Node) (i : ℕ) (v m : Node)
    → value_child n i ≡ some v
    → (n' : Node) × (set_value n i m ≡ some n') × (value_child n' i ≡ some m)
value_child-set_value (node t s e cs) i v m h =
    let (c, hc, hv) = on_some_inv (child cs i) _ v h in
    (
      node t s e (set_child cs i (with_value c m)),
      rw hc refl,
      rw (child-set_child cs i c (with_value c m) hc) (with_value_lem c v m hv),
    )

-- A node that is changed in its place is found where it was.
pub node_at-set_at :
    (is : List ℕ) (n o m : Node)
    → node_at n is ≡ some o
    → (n' : Node) × (set_at n is m ≡ some n') × (node_at n' is ≡ some m)
node_at-set_at [] n o m h = (m, refl, refl)
node_at-set_at (i ∷ is) n o m h =
    let (c, hc, h1) = on_some_inv (value_child n i) _ o h in
    let (c', q, r) = node_at-set_at is c o m h1 in
    let (n', q', r') = value_child-set_value n i c c' hc in (n', rw (hc, q) q', rw r' r)

-- What a receiver is behind a change at a position: the token list that the change returns, and the new
-- node at that position; or the error of the change.
pub data Settled (n : Node) (is : List ℕ) (wrap : Cause → Failure)
    : Attempt → Changed → Type 0 where
  settled :
      {ts : TokenList} {m n' : Node}
      → set_at n is m ≡ some n'
      → node_at n' is ≡ some m
      → Settled n is wrap (attempt (done ts m)) (changed ts n')
  refused : {e : EditError} → Settled n is wrap (attempt (failed e)) (failure (wrap (edit e)))
  denied : {c : Cause} → Settled n is wrap (deny c) (failure (wrap c))
  crashed : Settled n is wrap (attempt panicked) crash
  starved_of : Settled n is wrap (attempt no_fuel) starved

pub settle-Settled :
    (n o : Node) (is : List ℕ) (wrap : Cause → Failure) (a : Attempt)
    → node_at n is ≡ some o
    → Settled n is wrap a (settle n is wrap a)
settle-Settled n o is wrap (attempt (done ts m)) h =
    let (n', q, r) = node_at-set_at is n o m h in rw q (settled q r)
settle-Settled n o is wrap (attempt (failed e)) h = refused
settle-Settled n o is wrap (attempt panicked) h = crashed
settle-Settled n o is wrap (attempt no_fuel) h = starved_of
settle-Settled n o is wrap (deny c) h = denied

-- where a change by a path takes place: at the receiver, or below the parent that the path selects
module _ {S : Type 0} (n : Handle) (v : Json) (opts : SyntaxOptions)
    (choose : S → Json → Option Json) where
  pub data Placed (op walk_op : Op) (whole : Changed) (f : S → Handle → Attempt)
      : List S → Changed → Type 0 where
    at_root : Placed op walk_op whole f [] whole
    at_parent :
        {s : S} {ss : List S} {is : List ℕ} {m : Node} {x : Json} {r : Changed}
        → select_all choose (all_but_last (s ∷ ss)) v ≡ some x
        → node_at n.node is ≡ some m
        → json_of (elems_of n) opts m ≡ some x
        → Settled n.node is (at_index_of op (length ss)) (f (last s ss) (handle_at n m)) r
        → Placed op walk_op whole f (s ∷ ss) r
    no_parent :
        {s : S} {ss : List S} {i : ℕ} {c : Cause}
        → i < length ss
        → select_all choose (take (suc i) (s ∷ ss)) v ≡ none
        → Placed op walk_op whole f
            (s ∷ ss)
            (failure (in_path (record { op = walk_op; index = some i; cause = c })))

  length-all_but_last : (s : S) (ss : List S) → length (all_but_last (s ∷ ss)) ≡ length ss
  length-all_but_last s [] = refl
  length-all_but_last s (t ∷ ts) = ap suc (length-all_but_last t ts)

  take-all_but_last :
      (i : ℕ) (s : S) (ss : List S)
      → i < length ss
      → take (suc i) (all_but_last (s ∷ ss)) ≡ take (suc i) (s ∷ ss)
  take-all_but_last i s [] h = ground arith
  take-all_but_last zero s (t ∷ ts) h = refl
  take-all_but_last (suc i) s (t ∷ ts) h = ap (◌∷◌ s) (take-all_but_last i t ts (omega arith))

  change_at-Placed :
      (op walk_op : Op) (whole : Changed) (f : S → Handle → Attempt) (s : S) (ss : List S)
      (r : Reached)
      → Selected (elems_of n) opts choose walk_op n.node v 0 (all_but_last (s ∷ ss)) r
      → Placed op walk_op whole f
          (s ∷ ss)
          (change_at n (at_index_of op (length ss)) (f (last s ss)) r)
  change_at-Placed op walk_op whole f s ss _ (selected {is = is} {m = m} q p j) =
      at_parent q p j
        (settle-Settled n.node m is (at_index_of op (length ss)) (f (last s ss) (handle_at n m)) p)
  change_at-Placed op walk_op whole f s ss _ (missing {i = i} {j = k} {c = c} e l a b d) =
      let inside : i < length ss = rw (← length-all_but_last s ss) l in
      let same : k ≡ i = omega arith in
      rw same (
        no_parent inside
          (sym (ap (λ x. select_all choose x v) (take-all_but_last i s ss inside)) ∙ b))

module _ (n : Handle) (v : Json) (opts : SyntaxOptions)
    (h : json_of (elems_of n) opts n.node ≡ some v) where
  pub along_path-Placed :
      (op : Op) (path : List Segment) (whole : Changed) (f : Segment → Handle → Attempt)
      → Placed n v opts select_segment op access whole f path (along_path n op path whole f)
  along_path-Placed op [] whole f = at_root
  along_path-Placed op (s ∷ ss) whole f =
      change_at-Placed n v opts select_segment op access whole f s ss _
        (at-Selected (elems_of n) opts n.node v (all_but_last (s ∷ ss)) h)

  pub along_pointer-Placed :
      (op : Op) (tokens : List Text) (whole : Changed) (f : Text → Handle → Attempt)
      → Placed n v opts select op op whole f tokens (along_pointer n op (some tokens) whole f)
  unfolding pointer_parent
  along_pointer-Placed op [] whole f = at_root
  along_pointer-Placed op (t ∷ ts) whole f =
      change_at-Placed n v opts select op op whole f t ts _
        (pointer_walk-Selected (elems_of n) opts op (all_but_last (t ∷ ts)) n.node v h)

-- how the selection of the parent compares with the one of RFC 6901
abbrev pub NearParent : List Text → Json → Type 0
NearParent [] v = Unit
NearParent (t ∷ ts) v = NearRfc (all_but_last (t ∷ ts)) v

nearly : (tokens : List Text) (v : Json) → NearParent tokens v
nearly [] v = tt
nearly (t ∷ ts) v = select_all-NearRfc (all_but_last (t ∷ ts)) v

-- a change by a pointer that parses, and one by a pointer that does not
pub data ByPointer (n : Handle) (v : Json) (opts : SyntaxOptions) (pointer : Text) (op : Op)
    (whole : Changed) (f : Text → Handle → Attempt) : Changed → Type 0 where
  by_tokens :
      {tokens : List Text} {r : Changed}
      → parse_json_pointer pointer ≡ some tokens
      → Placed n v opts select op op whole f tokens r
      → NearParent tokens v
      → ByPointer n v opts pointer op whole f r
  malformed :
      parse_json_pointer pointer ≡ none
      → ByPointer n v opts pointer op whole f (failure (in_path (bad_pointer op)))

along_pointer-ByPointer :
    (n : Handle) (v : Json) (opts : SyntaxOptions) (h : json_of (elems_of n) opts n.node ≡ some v)
    (pointer : Text) (op : Op) (whole : Changed) (f : Text → Handle → Attempt)
    → ByPointer n v opts pointer op whole f
        (along_pointer n op (parse_json_pointer pointer) whole f)
along_pointer-ByPointer n v opts h pointer op whole f = by_parse (parse_json_pointer pointer) refl
  where
    by_parse :
        (o : Option (List Text))
        → parse_json_pointer pointer ≡ o
        → ByPointer n v opts pointer op whole f (along_pointer n op o whole f)
    by_parse none q = malformed q
    by_parse (some tokens) q =
        by_tokens q (along_pointer-Placed n v opts h op tokens whole f) (nearly tokens v)

-- The receiver stands for the value `v`. A removal, an insertion and a replacement by a JSON pointer each
-- refuse a pointer that does not parse; they act on the receiver as a whole for the empty pointer; else
-- they are the change that their last token names in the node that stands for what the tokens before
-- select in `v`: the node that this change leaves stands in that place of the receiver, and its error comes
-- with the index of the last token. Where nothing is selected, the error has the index of a token before
-- the last one that, with the tokens before it, selects nothing. A token selects the member of its name or
-- the element at its index, which may have a sign and leading zeros; the tokens before the last together
-- select what they select by RFC 6901, or one of them has a sign or a leading zero and they select nothing
-- by RFC 6901.
pub changes-ByPointer :
    (u : Unicode) (rune_len : ℕ → ℕ) (n value : Handle) (v : Json) (opts : SyntaxOptions)
    (pointer : Text)
    → json_of (elems_of n) opts n.node ≡ some v
    → ByPointer n v opts pointer remove
        (no_path remove)
        remove_token
        (remove_json_pointer n pointer)
      × ByPointer n v opts pointer insert
          (no_path insert)
          (insert_token u rune_len value)
          (insert_json_pointer u rune_len n pointer value)
      × ByPointer n v opts pointer replace
          (replace_whole u rune_len n value)
          (replace_token u rune_len value)
          (replace_json_pointer u rune_len n pointer value)
unfolding remove_json_pointer insert_json_pointer replace_json_pointer
changes-ByPointer u rune_len n value v opts pointer h = (
  along_pointer-ByPointer n v opts h pointer remove _ _,
  along_pointer-ByPointer n v opts h pointer insert _ _,
  along_pointer-ByPointer n v opts h pointer replace _ _,
)

-- The receiver stands for the value `v`. A removal, an insertion and a replacement by a path act on the
-- receiver as a whole for the empty path; else they are the change that the last segment names in the node
-- that stands for what the segments before it select in `v`: the node that this change leaves stands in
-- that place of the receiver, and its error comes with the index of the last segment. Where nothing is
-- selected, the error is one of access, with the index of a segment before the last one that, with the
-- segments before it, selects nothing.
pub changes-Placed :
    (u : Unicode) (rune_len : ℕ → ℕ) (n value : Handle) (v : Json) (opts : SyntaxOptions)
    (path : List Segment)
    → json_of (elems_of n) opts n.node ≡ some v
    → Placed n v opts select_segment remove access
        (no_path remove)
        remove_segment
        path
        (remove_at n path)
      × Placed n v opts select_segment insert access
          (no_path insert)
          (insert_segment u rune_len value)
          path
          (insert_at u rune_len n value path)
      × Placed n v opts select_segment replace access
          (replace_whole u rune_len n value)
          (replace_segment u rune_len value)
          path
          (replace_at u rune_len n value path)
unfolding remove_at insert_at replace_at
changes-Placed u rune_len n value v opts path h = (
  along_path-Placed n v opts h remove path _ _,
  along_path-Placed n v opts h insert path _ _,
  along_path-Placed n v opts h replace path _ _,
)
