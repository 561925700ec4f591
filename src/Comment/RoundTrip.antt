-- ===== src/Comment/RoundTrip.antt =====
-- The text that was written into a comment is the text that is read from it.
use roundtrip.Base.{
  take, suc, ◌+◌, ◌-◌, ◌≡◌, refl, ap, Text, codes, [], ◌∷◌, ◌++◌, true, false, ◌⊎◌, leb, text_eq,
  text_eq_refl, has_prefix, length, length-append, inl, inr, arith,
}
use roundtrip.Comment.{
  has_suffix, contains, contains_any, done, inner, comment_text, comment_literal_text,
}

has_suffix_self : (p : Text) → has_suffix p p ≡ true
unfolding has_suffix
has_suffix_self [] = unfold text_eq in refl
has_suffix_self (c ∷ p) = rw text_eq_refl

pub has_suffix-append : (s p : Text) → has_suffix (s ++ p) p ≡ true
unfolding has_suffix
has_suffix-append [] p = has_suffix_self p
has_suffix-append (c ∷ s) p = ground (arith, has_suffix-append s p)

take-append : (s t : Text) → take (length s) (s ++ t) ≡ s
take-append [] t = refl
take-append (c ∷ s) t = ap (◌∷◌ c) (take-append s t)

length_block : (text : Text) → length (codes "/*" ++ text ++ codes "*/") ≡ length text + 4
length_block text = omega (arith, length-append text (codes "*/"))

inner_block : (text : Text) → inner (codes "/*" ++ text ++ codes "*/") ≡ done text
unfolding inner
inner_block text =
    let n : length (text ++ codes "*/") ≡ length text + 2 = length-append text (codes "*/") in
    let big : leb 4 (suc (suc (length (text ++ codes "*/")))) ≡ true = ground (arith, n) in
    let small : suc (suc (length (text ++ codes "*/"))) - 4 ≡ length text = omega (arith, n) in
    rw (big, small) (ap done (take-append text (codes "*/")))

comment_text_block : (text : Text) → comment_text (codes "/*" ++ text ++ codes "*/") ≡ done text
unfolding comment_text has_prefix
comment_text_block text =
    rw (has_suffix-append (codes "/*" ++ text) (codes "*/")) (inner_block text)

comment_text_line : (text : Text) → comment_text (codes "//" ++ text) ≡ done text
unfolding comment_text has_prefix
comment_text_line text = refl

-- What `commentLiteralText` returns, as one of the two forms of comment.
pub literal_forms :
    (lit text new : Text)
    → comment_literal_text lit text ≡ done new
    → ((new ≡ codes "/*" ++ text ++ codes "*/") × (contains text (codes "*/") ≡ false))
      ⊎ ((new ≡ codes "//" ++ text) × (contains_any text (codes "\r\n") ≡ false))
unfolding comment_literal_text
literal_forms lit text new h = ground arith

-- `Comment.Text` after a successful `Comment.ReplaceText` is the text that was given.
pub comment_text-comment_literal_text :
    (lit text new : Text) → comment_literal_text lit text ≡ done new → comment_text new ≡ done text
comment_text-comment_literal_text lit text new h = elim (literal_forms lit text new h) [
  | inl (e, _) ↦ rw e (comment_text_block text)
  | inr (e, _) ↦ rw e (comment_text_line text)
]
