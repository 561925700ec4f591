-- ===== src/Indent/Trailing.antt =====
-- json/format.go: what `trailingJSONSpace` cuts off.
use roundtrip.Base.{
  ℕ, ◌≡◌, refl, ap, Text, [], ◌∷◌, ◌++◌, Bool, true, false, if◌then◌else◌, if_elim,
}
use roundtrip.Indent.Spread.{IsSpace}
use roundtrip.Indent.{is_json_space, trailing, trailing_json_space}

-- the longest end of `s` that is whitespace
pub data Longest (s : Text) : Text → Type 0 where
  whole : IsSpace s → Longest s s
  behind :
      (k : Text) (c : ℕ) (rest : Text)
      → s ≡ k ++ c ∷ rest
      → is_json_space c ≡ false
      → IsSpace rest
      → Longest s rest

-- the same with the flag of `trailing`
data Cut (s : Text) : Bool × Text → Type 0 where
  nothing_found : IsSpace s → Cut s (false, s)
  found :
      (k : Text) (c : ℕ) (rest : Text)
      → s ≡ k ++ c ∷ rest
      → is_json_space c ≡ false
      → IsSpace rest
      → Cut s (true, rest)

longer :
    (c : ℕ) {s : Text} {r : Bool × Text}
    → Cut s r
    → Cut
        (c ∷ s)
        (if r.0 then (true, r.1) else if is_json_space c then (false, c ∷ r.1) else (true, r.1))
longer c (found k d rest e n h) = found (c ∷ k) d rest (ap (λ x. c ∷ x) e) n h
longer c {s} (nothing_found h) =
    if_elim (Cut (c ∷ s)) (is_json_space c) (λ y. nothing_found (y, h)) λ n. found [] c s refl n h

trailing-Cut : (s : Text) → Cut s (trailing s)
unfolding trailing
trailing-Cut [] = nothing_found tt
trailing-Cut (c ∷ s) = longer c (trailing-Cut s)

Cut-Longest : {s : Text} {r : Bool × Text} → Cut s r → Longest s r.1
Cut-Longest (nothing_found h) = whole h
Cut-Longest (found k c rest e n h) = behind k c rest e n h

-- `trailingJSONSpace` returns the longest end of the source that is JSON whitespace: all of a source
-- that is whitespace, else the whitespace behind the last character that is none.
pub trailing_json_space-Longest : (s : Text) → Longest s (trailing_json_space s)
unfolding trailing_json_space
trailing_json_space-Longest s = Cut-Longest (trailing-Cut s)
