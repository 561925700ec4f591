-- ===== src/Comment.antt =====
-- json/comment.go and the comment helpers of json/meta.go: the text of a comment token, and its
-- replacement.
pub mod RoundTrip
pub mod Scanned
use roundtrip.Base.{
  ℕ, zero, suc, ◌-◌, ◌≤◌, Text, codes, List, [], ◌∷◌, ◌++◌, Bool, true, false, ◌&&◌, ◌||◌, ◌==◌,
  leb, if◌then◌else◌, text_eq, has_prefix, length, take, Option, none, some,
}

-- `strings.HasSuffix`
unfoldable pub has_suffix : Text → Text → Bool
has_suffix [] p = text_eq [] p
has_suffix (c ∷ s) p = text_eq (c ∷ s) p || has_suffix s p

-- `strings.Contains`
unfoldable pub contains : Text → Text → Bool
contains [] p = has_prefix [] p
contains (c ∷ s) p = has_prefix (c ∷ s) p || contains s p

has_rune : Text → ℕ → Bool
has_rune [] c = false
has_rune (d ∷ ds) c = d == c || has_rune ds c

-- `strings.ContainsAny`
unfoldable pub contains_any : Text → Text → Bool
unfolding has_rune
contains_any [] cs = false
contains_any (c ∷ s) cs = has_rune cs c || contains_any s cs

-- A Go call that may return an error or panic.
pub data Outcome : Type 0 where
  done : Text → Outcome
  invalid_comment : Outcome
  panic : Outcome

abbrev pub drop : ℕ → Text → Text
drop zero s = s
drop (suc n) [] = []
drop (suc n) (c ∷ s) = drop n s

-- `raw[2 : len(raw)-2]`, which panics where the bounds cross
inner : Text → Outcome
inner raw = if leb 4 (length raw) then done (take (length raw - 4) (drop 2 raw)) else panic

-- `commentText`
unfoldable pub comment_text : Text → Outcome
unfolding inner
comment_text raw =
    if has_prefix raw (codes "//")
    then done (drop 2 raw)
    else if has_prefix raw (codes "/*") && has_suffix raw (codes "*/")
    then inner raw
    else panic

-- `commentLiteralText`
unfoldable pub comment_literal_text : Text → Text → Outcome
comment_literal_text lit text =
    if has_prefix lit (codes "/*") && has_suffix lit (codes "*/")
    then (if contains text (codes "*/")
        then invalid_comment
        else done (codes "/*" ++ text ++ codes "*/"))
    else if has_prefix lit (codes "//")
    then (if contains_any text (codes "\r\n") then invalid_comment else done (codes "//" ++ text))
    else panic
