-- ===== src/Edit/Replace.antt =====
-- json/meta.go: what `Replace` by a node does to the document.
use roundtrip.Base.{
  ℕ, ◌<◌, ◌≡◌, refl, ap, sym, ◌∙◌, ◌⊎◌, inl, inr, List, [], ◌∷◌, ◌++◌, Bool, true, some, All, Text,
  subst,
}
use roundtrip.Chars.{Unicode, IsUnicode}
use roundtrip.Decoder.{Decoder, Node, start_of, end_of, ParseErrorKind, Result, ok, parse_error}
use roundtrip.Document.{Meta, decoder_with}
use roundtrip.Document.Preserves.{Preserved, document, rejected, decode_meta-Preserved}
use roundtrip.Edit.{
  Edited, done, failed, invalid_value, elems_of, input_of, validate_node_syntax, replaced_by,
  replace_with_node,
}
use roundtrip.Syntax.{SyntaxOptions}
use roundtrip.Token.{Token, literals}
use roundtrip.TokenList.Ranges.{Range, cut, replace_range, replaced}
use roundtrip.TokenList.Ranges.Cuts.{cut-Cuts}
use roundtrip.TokenList.{Elem, TokenList, values}
use roundtrip.Tree.{Handle, bytes, clone}
use roundtrip.Tree.Copies.{clone-Cloned, node_tokens-Cloned, node_tokens-Cuts, values-copies}
use roundtrip.Tree.Clones.{Within, clone_total}

verdict :
    {b : Bool} {s : Text} {r : Result Meta}
    → Preserved b s r
    → ((m : Meta) × (d : Decoder) × (r ≡ ok m d))
      ⊎ ((e : ParseErrorKind) × (t : Token) × (d : Decoder) × (r ≡ parse_error e t d))
verdict (document {m} {d} _ _ _ _ _ _) = inl (m, d, refl)
verdict (rejected {e} {t} {d} _ _) = inr (e, t, d, refl)

-- A value is accepted or refused: its decoding neither panics nor runs out of fuel.
pub validate_cases :
    (u : Unicode)
    → IsUnicode u
    → (rune_len : ℕ → ℕ) (value : Handle) (opts : SyntaxOptions)
    → ((m : Meta) × (d : Decoder) × (validate_node_syntax u rune_len value opts ≡ ok m d))
      ⊎ ((e : ParseErrorKind) × (t : Token) × (d : Decoder) × (validate_node_syntax u rune_len value
              opts
            ≡ parse_error e t d))
unfolding validate_node_syntax
validate_cases u law rune_len value opts = verdict (
    decode_meta-Preserved u law true
      (decoder_with (input_of u rune_len (bytes (elems_of value) value.node)) opts) tt)

-- Every address in the list is in use.
abbrev pub Older : List Elem → ℕ → Type 0
Older es fresh = All (λ e. e.id < fresh) es

-- `new` stands in place of the range `r`, holds the tokens of the range `v`, and is what the node `m`
-- stands for.
pub record Replacement (r : Range) (v : Range) (source : Text) (ts : TokenList) (m : Node)
    : Type 0 where
  pub new : List Elem
  pub elems : ts.elems ≡ r.left ++ (new ++ r.right)
  pub tokens : values new ≡ values v.inside
  pub text : bytes ts.elems m ≡ source

-- What `Replace` returns for a value that decodes, or that does not.
pub data ReplaceResult (u : Unicode) (rune_len : ℕ → ℕ) (n value : Handle) (r v : Range)
    : Edited → Type 0 where
  replaced_in :
      {m : Meta} {d : Decoder} {ts : TokenList} {k : Node}
      → validate_node_syntax u rune_len value n.owner.syntax ≡ ok m d
      → Replacement r v (bytes (elems_of value) value.node) ts k
      → ReplaceResult u rune_len n value r v (done ts k)
  refused :
      {e : ParseErrorKind} {t : Token} {d : Decoder}
      → validate_node_syntax u rune_len value n.owner.syntax ≡ parse_error e t d
      → ReplaceResult u rune_len n value r v (failed (invalid_value e t))

pub Older-left :
    (es : List Elem) (a b : ℕ) (r : Range) (k : ℕ)
    → cut es a b ≡ some r
    → Older es k
    → Older r.left k
Older-left es a b r k c o =
    let p = cut-Cuts es a b r c in
    split r.left (r.inside ++ r.right) (subst (λ x. Older x k) p.parts o)
  where
    split : (xs ys : List Elem) → Older (xs ++ ys) k → Older xs k
    split [] ys o = tt
    split (x ∷ xs) ys (p, o) = (p, split xs ys o)

replaced_by-Replacement :
    (n value : Handle) (r v : Range)
    → cut (elems_of n) (start_of n.node) (end_of n.node) ≡ some r
    → cut (elems_of value) (start_of value.node) (end_of value.node) ≡ some v
    → Within v.inside value.node
    → Older (elems_of n) n.owner.tokens.fresh
    → (ts : TokenList) × (k : Node) × (replaced_by n
          (clone n.owner.tokens.fresh (elems_of value) value.node)
        ≡ done ts k)
      × Replacement r v (bytes (elems_of value) value.node) ts k
unfolding replaced_by replace_range replaced
replaced_by-Replacement n value r v cr cv w old =
    let fresh = n.owner.tokens.fresh in
    let (k, src, h) = clone_total fresh (elems_of value) value.node v cv w in
    let c = clone-Cloned fresh (elems_of value) value.node k src v cv h in
    (
      record { elems = r.left ++ (src.elems ++ r.right); fresh = src.fresh },
      k,
      rw (h, cr) refl,
      record {
        new = src.elems;
        elems = refl;
        tokens = ap values c.elems ∙ values-copies v.inside fresh;
        text = ap literals (
            node_tokens-Cloned r.left r.right (Older-left (elems_of n) _ _ r fresh cr old) c
            ∙ sym (
                node_tokens-Cuts (elems_of value) value.node v
                  (cut-Cuts (elems_of value) _ _ v cv)));
      },
    )

-- The tables of runes are as documented on ASCII. The ends of the node and of the value are in order in
-- their token lists, the descendants of the value start and end in its range, and the addresses of the
-- document's elements are in use. `Replace` by a node returns the error with which the value's source
-- text is refused under the document's syntax, or else changes the token list and the node so that new
-- elements with the value's tokens stand in place of those of the node, all other elements stay as they
-- are and where they are, and the source text of the node is that of the value.
pub replace_with_node-ReplaceResult :
    (u : Unicode) (law : IsUnicode u) (rune_len : ℕ → ℕ) (n value : Handle) (r v : Range)
    → cut (elems_of n) (start_of n.node) (end_of n.node) ≡ some r
    → cut (elems_of value) (start_of value.node) (end_of value.node) ≡ some v
    → Within v.inside value.node
    → Older (elems_of n) n.owner.tokens.fresh
    → ReplaceResult u rune_len n value r v (replace_with_node u rune_len n value)
unfolding replace_with_node
replace_with_node-ReplaceResult u law rune_len n value r v cr cv w old =
    elim (validate_cases u law rune_len value n.owner.syntax) [
      | inl (m, d, h) ↦
          let (ts, k, q, p) = replaced_by-Replacement n value r v cr cv w old in
          rw (h, q) (replaced_in h p)
      | inr (e, t, d, h) ↦ rw h (refused h)
    ]
