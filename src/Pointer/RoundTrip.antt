-- ===== src/Pointer/RoundTrip.antt =====
-- json/path.go: `parseJSONPointer` inverts the writing of pointers in RFC 6901.
use roundtrip.Base.{
  ℕ, ◌≡◌, ◌≢◌, refl, ap, sym, ◌∙◌, ◌↔◌, Text, List, [], ◌∷◌, ◌++◌, true, false, Option, none, some,
  ◌==◌, All, subst, Bool-cases, if_elim, map, inl, inr,
}
use roundtrip.Pointer.{
  unescape_json_pointer_token, push_first, split, both, unescape_all, parse_json_pointer,
}
use roundtrip.Pointer.Escape.{
  escape, NoSlash, unescape-escape, escape-unescape, is_slash, pointer_text,
}

abbrev raw_text : List Text → Text
raw_text [] = []
raw_text (s ∷ ss) = b'/' ∷ s ++ raw_text ss

push_first-NoSlash :
    (c : ℕ) (ss : List Text) → (c == b'/') ≡ false → All NoSlash ss → All NoSlash (push_first c ss)
push_first-NoSlash c (s ∷ ss) h (a, b) = ((h, a), b)
push_first-NoSlash c [] h x = ((h, tt), tt)

split-NoSlash : (s : Text) → All NoSlash (split s)
unfolding split
split-NoSlash [] = (tt, tt)
split-NoSlash (c ∷ s) =
    if_elim (All NoSlash) (c == b'/') (λ _. (tt, split-NoSlash s))
      λ h. push_first-NoSlash c _ h (split-NoSlash s)

tail_eq : (t s r : Text) → b'/' ∷ t ++ r ≡ b'/' ∷ s → t ++ r ≡ s
tail_eq t s r h = cc

raw_text-push_first :
    (c : ℕ) (s : Text) (ss : List Text)
    → raw_text ss ≡ b'/' ∷ s
    → raw_text (push_first c ss) ≡ b'/' ∷ c ∷ s
raw_text-push_first c s [] h = cc
raw_text-push_first c s (t ∷ ts) h = ap (λ x. b'/' ∷ c ∷ x) (tail_eq t s (raw_text ts) h)

raw_text-split : (s : Text) → raw_text (split s) ≡ b'/' ∷ s
unfolding split
raw_text-split [] = refl
raw_text-split (c ∷ s) =
    if_elim (λ ss. raw_text ss ≡ b'/' ∷ c ∷ s) (c == b'/')
      (λ y. ap (λ x. b'/' ∷ x) (raw_text-split s) ∙ ap (λ d. b'/' ∷ d ∷ s) (is_slash c y))
      λ _. raw_text-push_first c s (split s) (raw_text-split s)

split-escape :
    (t : Text) (ts : List Text) → split (escape t ++ pointer_text ts) ≡ escape t ∷ map escape ts
unfolding split
split-escape [] [] = refl
split-escape [] (t ∷ ts) = ap (λ x. [] ∷ x) (split-escape t ts)
split-escape (c ∷ t) ts =
    if_elim (λ e. split (e ++ pointer_text ts) ≡ e ∷ map escape ts) (c == b'~')
      (λ _. rw (split-escape t ts) refl)
      λ _.
        if_elim (λ e. split (e ++ pointer_text ts) ≡ e ∷ map escape ts) (c == b'/')
          (λ _. rw (split-escape t ts) refl) λ n. rw (n, split-escape t ts) refl

unescape_all-escape : (ts : List Text) → unescape_all (map escape ts) ≡ some ts
unescape_all-escape [] = refl
unescape_all-escape (t ∷ ts) = rw (unescape-escape t, unescape_all-escape ts) refl

both_inv :
    (o : Option Text) (p : Option (List Text)) (ts : List Text)
    → both o p ≡ some ts
    → (t : Text) × (us : List Text) × (o ≡ some t) × (p ≡ some us) × (t ∷ us ≡ ts)
both_inv none p ts h = cc
both_inv (some t) none ts h = cc
both_inv (some t) (some us) ts h = (t, us, refl, refl, cc)

escape-unescape_all :
    (ss ts : List Text) → All NoSlash ss → unescape_all ss ≡ some ts → pointer_text ts ≡ raw_text ss
escape-unescape_all [] [] n h = refl
escape-unescape_all [] (t ∷ ts) n h = cc
escape-unescape_all (s ∷ ss) ts n h =
    let (t, us, a, b, e) = both_inv (unescape_json_pointer_token s) (unescape_all ss) ts h in
    subst (λ x. pointer_text x ≡ raw_text (s ∷ ss)) e
      (rw (escape-unescape false s t n.0 a, escape-unescape_all ss us n.1 b) refl)

first_slash :
    (c : ℕ) (s : Text) → (c == b'/') ≡ true → parse_json_pointer (c ∷ s) ≡ unescape_all (split s)
unfolding parse_json_pointer
first_slash c s y = rw y refl

no_slash :
    (c : ℕ) (s : Text) (ts : List Text) → (c == b'/') ≡ false → parse_json_pointer (c ∷ s) ≢ some ts
unfolding parse_json_pointer
no_slash c s ts n = rw n λ h. cc

read-written : (ts : List Text) → parse_json_pointer (pointer_text ts) ≡ some ts
unfolding parse_json_pointer
read-written [] = refl
read-written (t ∷ ts) = ap unescape_all (split-escape t ts) ∙ unescape_all-escape (t ∷ ts)

written-read : (p : Text) (ts : List Text) → parse_json_pointer p ≡ some ts → p ≡ pointer_text ts
unfolding parse_json_pointer
written-read [] [] h = refl
written-read [] (t ∷ ts) h = cc
written-read (c ∷ s) ts h = elim (Bool-cases (c == b'/')) [
  | inl y ↦
      ap (λ d. d ∷ s) (sym (is_slash c y))
      ∙ sym (raw_text-split s)
      ∙ sym (escape-unescape_all (split s) ts (split-NoSlash s) (sym (first_slash c s y) ∙ h))
  | inr n ↦ absurd (no_slash c s ts n h)
]

-- `parseJSONPointer` returns the tokens `ts` for a pointer exactly when the pointer is the text that
-- RFC 6901 writes for `ts`: a `/` before each token, with `~` written `~0` and `/` written `~1`.
pub parse_json_pointer_iff :
    (p : Text) (ts : List Text) → (parse_json_pointer p ≡ some ts) ↔ (p ≡ pointer_text ts)
parse_json_pointer_iff p ts =
    (written-read p ts, λ e. subst (λ q. parse_json_pointer q ≡ some ts) (sym e) (read-written ts))
