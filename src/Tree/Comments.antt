-- ===== src/Tree/Comments.antt =====
-- json/meta.go and json/comment.go: the comments round a node.
pub mod Runs
use mathlib.Core.List.{reverse, reverse-append, reverse-reverse}
use roundtrip.Base.{
  ℕ, zero, suc, ◌+◌, ◌-◌, ◌≡◌, refl, ap, sym, ◌∙◌, Text, codes, List, [], ◌∷◌, ◌++◌, Bool, true,
  false, Bool-cases, inl, inr, Option, none, some, ◌==◌, if◌then◌else◌, All, All-append,
  append_assoc, append-nil, arith, subst,
}
use roundtrip.Comment.{Outcome, done, panic, invalid_comment, comment_text}
use roundtrip.Decoder.{Node, node, Nodes, nil, cons, start_of, end_of, is_comment}
use roundtrip.Token.{
  TokenType, anchor, comma, comment, whitespace, newline, NodeType, object, array, Token,
}
use roundtrip.TokenList.Ranges.{behind, ahead, ahead_from}
use roundtrip.TokenList.Ranges.Cuts.{named}
use roundtrip.TokenList.{Elem, value_at}
use roundtrip.Tree.{Handle, count, child, children_of, type_of}

-- what a walk over comments does at a token: pass it by, collect it, or stop
pub data Walk : Type 0 where
  pass collect stop : Walk

abbrev pub walk_at : TokenType → Walk
walk_at whitespace = pass
walk_at newline = pass
walk_at anchor = pass
walk_at comment = collect
walk_at _ = stop

abbrev pub is_stop : Walk → Bool
is_stop stop = true
is_stop _ = false

-- `commentsForward`; a comment is the name of its element
pub comments_forward : List Elem → List ℕ
comments_forward [] = []
comments_forward (e ∷ es) = elim (walk_at e.value.type) [
  | pass ↦ comments_forward es
  | collect ↦ e.id ∷ comments_forward es
  | stop ↦ []
]

-- `commentsBackward`, on the elements before, the nearest first
abbrev pub comments_backward : List Elem → List ℕ
comments_backward es = reverse (comments_forward es)

-- `commentsBetween`
pub comments_between : List Elem → ℕ → List ℕ
comments_between [] last = []
comments_between (e ∷ es) last =
    let rest = comments_between es last in
    if e.id == last then [] else if is_comment e.value.type then e.id ∷ rest else rest

abbrev is_comma_token : TokenType → Bool
is_comma_token comma = true
is_comma_token _ = false

-- `danglingComments` behind the last child: those behind the first comma
pub behind_first_comma : List Elem → ℕ → List ℕ
unfolding comments_between
behind_first_comma [] last = []
behind_first_comma (e ∷ es) last =
    let rest = behind_first_comma es last in
    if e.id == last
    then []
    else if is_comma_token e.value.type
    then comments_between es last
    else rest

abbrev last_child : Node → Nodes → Node
last_child n nil = n
last_child n (cons m ms) = last_child m ms

abbrev dangling_of : List Elem → Node → Nodes → List ℕ
dangling_of es n nil = comments_between (behind es (start_of n)) (end_of n)
dangling_of es n (cons m ms) = behind_first_comma (behind es (end_of (last_child m ms))) (end_of n)

-- `danglingComments`
pub dangling_comments : List Elem → Node → List ℕ
dangling_comments es (node object s e cs) = dangling_of es (node object s e cs) cs
dangling_comments es (node array s e cs) = dangling_of es (node array s e cs) cs
dangling_comments es (node _ s e cs) = []

pub record CommentSet : Type 0 where
  pub leading : List ℕ
  pub trailing : List ℕ
  pub dangling : List ℕ

-- `Node.Comments`
pub comments : List Elem → Node → CommentSet
comments es n = record {
  leading = comments_backward (ahead es (start_of n));
  trailing = comments_forward (behind es (end_of n));
  dangling = dangling_comments es n;
}

-- `Comments.First`
abbrev pub first_comment : List ℕ → Option ℕ
first_comment [] = none
first_comment (c ∷ cs) = some c

-- `Node.TrailingComment`
abbrev pub trailing_comment : List Elem → Node → Option ℕ
trailing_comment es n = first_comment (comments es n).trailing

abbrev or_first : Option ℕ → Option ℕ → Option ℕ
or_first none c = c
or_first (some c) _ = some c

-- `CommentSet.First`
abbrev pub first_of_set : CommentSet → Option ℕ
first_of_set cs =
    or_first (first_comment cs.leading)
      (or_first (first_comment cs.dangling) (first_comment cs.trailing))

abbrev text_of : Option Token → Outcome
text_of none = panic
text_of (some t) = comment_text t.literal

abbrev joined : Outcome → List ℕ → Outcome → Outcome
joined (done s) [] rest = done s
joined (done s) (c ∷ cs) (done t) = done (s ++ 10 ∷ t)
joined (done s) (c ∷ cs) rest = rest
joined o cs rest = o

-- `Comments.Text`
pub comments_text : List Elem → List ℕ → Outcome
comments_text es [] = done []
comments_text es (c ∷ cs) = joined (text_of (value_at es c)) cs (comments_text es cs)

-- `CommentSet.Text`
abbrev pub set_text : List Elem → CommentSet → Outcome
set_text es cs = comments_text es (cs.leading ++ (cs.dangling ++ cs.trailing))
