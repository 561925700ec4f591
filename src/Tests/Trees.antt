-- ===== src/Tests/Trees.antt =====
-- Comments, gaps and the indentation at concrete documents.
use roundtrip.Base.{
  zero, suc, Bool, false, ℕ, All, ◌≡◌, ◌≢◌, ◌↔◌, refl, Text, codes, List, [], ◌∷◌, true, some,
  text_eq,
}
use roundtrip.Decoder.{Node, node, nil, cons, leaf}
use roundtrip.Token.{
  TokenType, anchor, comment, delim, newline, number, whitespace, array, array_element, number_node,
  token,
}
use roundtrip.TokenList.Ranges.{behind, ahead, ahead_from}
use roundtrip.TokenList.{Elem}
use roundtrip.Tree.Comments.Runs.{leading-run, trailing-run}
use roundtrip.Tree.Comments.{comments}
use roundtrip.Tree.Indentation.Agreement.{Agrees, any_indented, detect_indent_iff}
use roundtrip.Tree.Indentation.{walk_indent, walk_children, line_indent, detect_from, detect_indent}
use roundtrip.Tree.Walks.{walk_nodes, walk_leaves, feed, preorder, leaves_of, walks-feed}
use roundtrip.Tree.{child, leading_gap, leading_from}

abbrev elem : ℕ → TokenType → Text → Elem
elem i t s = record { id = i; value = token t s }

-- `[ // c` with a line break and the element `1`
abbrev commented : List Elem
commented =
    elem 0 delim (codes "[")
    ∷ elem 1 whitespace (codes " ")
    ∷ elem 2 comment (codes "// c")
    ∷ elem 3 newline (codes "\n")
    ∷ elem 4 number (codes "1")
    ∷ elem 5 comment (codes "/* d */")
    ∷ elem 6 delim (codes "]")
    ∷ []

leading-run_example : (comments commented (leaf number_node 4)).leading ≡ 2 ∷ []
leading-run_example =
    leading-run (elem 0 delim (codes "[") ∷ [])
      (elem 1 whitespace (codes " ")
        ∷ elem 2 comment (codes "// c")
        ∷ elem 3 newline (codes "\n")
        ∷ [])
      (elem 4 number (codes "1")) (elem 5 comment (codes "/* d */") ∷ elem 6 delim (codes "]") ∷ [])
      (leaf number_node 4) refl refl (refl, (refl, (refl, tt))) refl

trailing-run_example : (comments commented (leaf number_node 4)).trailing ≡ 5 ∷ []
trailing-run_example =
    trailing-run
      (elem 0 delim (codes "[")
        ∷ elem 1 whitespace (codes " ")
        ∷ elem 2 comment (codes "// c")
        ∷ elem 3 newline (codes "\n")
        ∷ [])
      (elem 4 number (codes "1")) (elem 5 comment (codes "/* d */") ∷ [])
      (elem 6 delim (codes "]") ∷ []) (leaf number_node 4) refl refl (refl, tt) refl

after_newline :
    leading_gap commented (node array 0 6 (cons (node array_element 4 4 nil) nil)) 0
    ≡ some (token newline (codes "\n") ∷ [])
unfolding leading_gap leading_from behind child
after_newline = refl

-- an array over three lines, indented by two spaces
abbrev indented_elems : List Elem
indented_elems =
    elem 0 delim (codes "[")
    ∷ elem 1 newline (codes "\n")
    ∷ elem 2 whitespace (codes "  ")
    ∷ elem 3 anchor []
    ∷ elem 4 number (codes "1")
    ∷ elem 5 anchor []
    ∷ elem 6 newline (codes "\n")
    ∷ elem 7 delim (codes "]")
    ∷ []

abbrev indented_root : Node
indented_root = node array 0 7 (cons (node array_element 3 5 (cons (leaf number_node 4) nil)) nil)

spaces-ne-nil : codes "  " ≢ []
spaces-ne-nil h = cc

detect_indent_iff_example : (detect_indent indented_elems indented_root ≡ codes "  ") ↔ (
    All (Agrees indented_elems (codes "  ")) (walk_indent indented_root 0)
    × (any_indented indented_elems (walk_indent indented_root 0) ≡ true))
detect_indent_iff_example =
    detect_indent_iff indented_elems indented_root (codes "  ") spaces-ne-nil

two_spaces : detect_indent indented_elems indented_root ≡ codes "  "
unfolding detect_indent detect_from walk_indent walk_children line_indent ahead ahead_from text_eq
two_spaces = refl

-- a callback that counts the nodes, and stops at the second
abbrev second : Node → ℕ → Bool × ℕ
second n zero = (true, 1)
second n (suc k) = (false, suc (suc k))

walks-feed_example :
    (walk_nodes second indented_root 0 ≡ feed second (preorder indented_root) 0)
    × (walk_leaves second indented_root 0 ≡ feed second (leaves_of (preorder indented_root)) 0)
walks-feed_example = walks-feed second indented_root 0
