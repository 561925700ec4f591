-- ===== src/Html/Clean.antt =====
-- json/format.go: what `HTMLEscape` writes has no character that matters to HTML.
use roundtrip.Base.{
  ℕ, zero, suc, ◌/◌, ◌%◌, codes, ◌<◌, ◌≡◌, ◌⊎◌, refl, Text, [], ◌∷◌, ◌++◌, Bool, true, false, not,
  ◌&&◌, ◌==◌, Bool-cases, if_elim, inl, inr, arith,
}
use roundtrip.Html.{is_html, is_line_separator, escape_separator, html_from, append_html_escape}
use roundtrip.Quote.{hex_digit}

-- no `<`, `>` or `&`, no U+2028 and no U+2029
abbrev pub clean : Text → Bool
clean [] = true
clean (c ∷ s) = not (is_html c) && not (c == 226 && is_line_separator s) && clean s

clean_plain :
    (c : ℕ) (s : Text)
    → is_html c ≡ false
    → (c == 226) ≡ false
    → clean s ≡ true
    → clean (c ∷ s) ≡ true
clean_plain c s a b h = rw (a, b, h) refl

hex_digit-not-html : (d : ℕ) → d < 16 → is_html (hex_digit d) ≡ false
hex_digit-not-html d h = ground arith

hex_digit-ascii : (d : ℕ) → d < 16 → (hex_digit d == 226) ≡ false
hex_digit-ascii d h = ground arith

clean_hex : (d : ℕ) (s : Text) → d < 16 → clean s ≡ true → clean (hex_digit d ∷ s) ≡ true
clean_hex d s h = clean_plain (hex_digit d) s (hex_digit-not-html d h) (hex_digit-ascii d h)

is_html_small : (c : ℕ) → is_html c ≡ true → c / 16 < 16
is_html_small c h = ground arith

escape_separator_text :
    (s : Text)
    → is_line_separator s ≡ true
    → (d : ℕ) × (d < 16) × (escape_separator s ≡ codes "\\u202" ++ hex_digit d ∷ [])
escape_separator_text [] h = cc
escape_separator_text (x ∷ []) h = cc
escape_separator_text (x ∷ y ∷ s) h = (y % 16, omega arith, refl)

-- A separator that is read in the output was there in the source.
end_kept :
    (x : ℕ) (s : Text)
    → is_line_separator (x ∷ html_from zero s) ≡ true
    → is_line_separator (x ∷ s) ≡ true
unfolding html_from
end_kept x [] = λ h. cc
end_kept x (y ∷ s) =
    let P : Text → Type 0 =
      λ z. is_line_separator (x ∷ z) ≡ true → is_line_separator (x ∷ y ∷ s) ≡ true in
    if_elim P (is_html y) (λ _ h. ground arith)
      λ _.
        if_elim P (y == 226 && is_line_separator s)
          (λ m. let (d, _, e) = escape_separator_text s (ground arith) in rw e λ h. ground arith)
          λ _ h. h

separator_kept :
    (s : Text) → is_line_separator (html_from zero s) ≡ true → is_line_separator s ≡ true
unfolding html_from
separator_kept [] = λ h. h
separator_kept (x ∷ s) =
    let P : Text → Type 0 = λ z. is_line_separator z ≡ true → is_line_separator (x ∷ s) ≡ true in
    if_elim P (is_html x) (λ _ h. cc)
      λ _.
        if_elim P (x == 226 && is_line_separator s)
          (λ m. let (d, _, e) = escape_separator_text s (ground arith) in rw e λ h. cc)
          λ _. end_kept x s

clean-escape_separator :
    (s r : Text)
    → is_line_separator s ≡ true
    → clean r ≡ true
    → clean (escape_separator s ++ r) ≡ true
clean-escape_separator s r h k =
    let (d, small, e) = escape_separator_text s h in rw e (clean_hex d r small k)

clean_rest :
    (c : ℕ) (s : Text)
    → is_html c ≡ false
    → (c == 226 && is_line_separator s) ≡ false
    → clean (html_from zero s) ≡ true
    → clean (c ∷ html_from zero s) ≡ true
clean_rest c s n m h = elim (Bool-cases (is_line_separator (html_from zero s))) [
  | inl y ↦ let k = separator_kept s y in ground arith
  | inr y ↦ rw (n, y, h) (ground arith)
]

clean-html_from : (k : ℕ) (s : Text) → clean (html_from k s) ≡ true
unfolding html_from
clean-html_from k [] = refl
clean-html_from (suc k) (c ∷ s) = clean-html_from k s
clean-html_from zero (c ∷ s) =
    if_elim (λ x. clean x ≡ true) (is_html c)
      (λ y.
        clean_hex (c / 16) (hex_digit (c % 16) ∷ html_from zero s) (is_html_small c y)
          (clean_hex (c % 16) (html_from zero s) (omega arith) (clean-html_from zero s)))
      λ n.
        if_elim (λ x. clean x ≡ true) (c == 226 && is_line_separator s)
          (λ y. clean-escape_separator s _ (ground arith) (clean-html_from 2 s))
          λ m. clean_rest c s n m (clean-html_from zero s)

clean_head : (c : ℕ) (s : Text) → clean (c ∷ s) ≡ true → is_html c ≡ false
clean_head c s h = ground arith

clean_separator :
    (c : ℕ) (s : Text) → clean (c ∷ s) ≡ true → (c == 226 && is_line_separator s) ≡ false
clean_separator c s h = ground arith

clean_tail : (c : ℕ) (s : Text) → clean (c ∷ s) ≡ true → clean s ≡ true
clean_tail c s h = ground arith

html_from-clean : (s : Text) → clean s ≡ true → html_from zero s ≡ s
unfolding html_from
html_from-clean [] h = refl
html_from-clean (c ∷ s) h =
    rw (clean_head c s h, clean_separator c s h, html_from-clean s (clean_tail c s h)) refl

same_or : (src : Text) → (clean src ≡ false) ⊎ (html_from zero src ≡ src)
same_or src = elim (Bool-cases (clean src)) [ inl y ↦ inr (html_from-clean src y) | inr n ↦ inl n ]

-- `appendHTMLEscape` appends a text `t` to `dst`. There is no `<`, `>` or `&`, and no U+2028 or
-- U+2029 in `t`; escaping `t` once more changes nothing; and where `src` has none of these
-- characters, `t` is `src`.
pub append_html_escape-clean :
    (dst src : Text)
    → (t : Text) × (append_html_escape dst src ≡ dst ++ t)
      × (clean t ≡ true)
      × (append_html_escape [] t ≡ t)
      × ((clean src ≡ false) ⊎ (t ≡ src))
append_html_escape-clean dst src =
    let c = clean-html_from zero src in
    (html_from zero src, refl, c, html_from-clean (html_from zero src) c, same_or src)
