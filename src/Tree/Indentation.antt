-- ===== src/Tree/Indentation.antt =====
-- json/indent.go: `detectIndent`. A prefix is measured in runes; it is a repetition of a part of its bytes
-- if and only if it is one of a part of its runes.
pub mod Agreement
use roundtrip.Base.{
  take, ℕ, zero, suc, ◌+◌, ◌/◌, ◌%◌, Text, List, [], ◌∷◌, ◌++◌, Bool, true, false, not, ◌||◌,
  Option, none, some, ◌==◌, if◌then◌else◌, length, text_eq,
}
use roundtrip.Decoder.{Node, node, Nodes, nil, cons, start_of}
use roundtrip.Token.{TokenType, whitespace, newline, NodeType, object_field, array_element}
use roundtrip.TokenList.Ranges.{ahead}
use roundtrip.TokenList.{Elem}

-- `transparentNodeDepth`
abbrev pub is_transparent : NodeType → Bool
is_transparent object_field = true
is_transparent array_element = true
is_transparent _ = false

abbrev child_depth : NodeType → ℕ → ℕ
child_depth t depth = if is_transparent t then depth else depth + 1

-- the nodes that `walkIndent` visits, in order, with their depths
unfoldable mutual
  pub walk_indent : Node → ℕ → List (Node × ℕ)
  walk_indent (node t s e cs) depth =
      (node t s e cs, depth) ∷ walk_children cs (child_depth t depth)

  pub walk_children : Nodes → ℕ → List (Node × ℕ)
  walk_children nil depth = []
  walk_children (cons n ns) depth = walk_indent n depth ++ walk_children ns depth

abbrev behind_newline : Text → List Elem → Option Text
behind_newline indent [] = none
behind_newline indent (e ∷ es) = is_line e.value.type
  where
    is_line : TokenType → Option Text
    is_line newline = some indent
    is_line _ = none

abbrev is_whitespace : TokenType → Bool
is_whitespace whitespace = true
is_whitespace _ = false

-- `lineIndent`, on the elements before the node, the nearest first
unfoldable pub line_indent : List Elem → Option Text
line_indent [] = none
line_indent (e ∷ es) =
    if is_whitespace e.value.type
    then behind_newline e.value.literal es
    else behind_newline [] (e ∷ es)

-- `strings.Repeat`
abbrev pub repeat : Text → ℕ → Text
repeat s zero = []
repeat s (suc n) = s ++ repeat s n

-- the variables of `detectIndent`, with whether the walk goes on
pub record Detection : Type 0 where
  pub indent : Text
  pub ok : Bool
  pub going : Bool

abbrev pub is_empty : Text → Bool
is_empty [] = true
is_empty (c ∷ cs) = false

abbrev pub stopped : Detection → Detection
stopped s = record s { ok = false; going = false }

-- what is done with the part of the prefix that stands for one level
abbrev pub observe_candidate : Detection → Text → Detection
observe_candidate s candidate =
    if is_empty s.indent
    then record { indent = candidate; ok = true; going = true }
    else if not (text_eq candidate s.indent)
    then stopped s
    else s

abbrev pub observe_prefix : Detection → Text → ℕ → Detection
observe_prefix s prefix depth =
    let candidate = take (length prefix / depth) prefix in
    if not (length prefix % depth == 0)
    then stopped s
    else if not (text_eq (repeat candidate depth) prefix)
    then stopped s
    else observe_candidate s candidate

-- the function that `detectIndent` passes to the walk
abbrev pub observe : Detection → Option Text → ℕ → Detection
observe s none depth = s
observe s (some prefix) depth =
    if depth == 0 || is_empty prefix then s else observe_prefix s prefix depth

unfoldable pub detect_from : List Elem → Detection → List (Node × ℕ) → Detection
detect_from es s [] = s
detect_from es s ((n, depth) ∷ more) =
    let next = observe s (line_indent (ahead es (start_of n))) depth in
    let rest = detect_from es next more in if next.going then rest else next

abbrev pub detected : Detection → Text
detected s = if s.ok then s.indent else []

-- `detectIndent`
unfoldable pub detect_indent : List Elem → Node → Text
detect_indent es root =
    detected
      (detect_from es (record { indent = []; ok = false; going = true }) (walk_indent root 0))
