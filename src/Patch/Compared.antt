-- ===== src/Patch/Compared.antt =====
-- json/patch.go: the operation `test` compares the value that the pointer selects.
use roundtrip.Access.Selects.{
  selected, missing, Pointed, evaluated, malformed, json_pointer-Pointed,
}
use roundtrip.Access.{PathError, Reached, access, bad_pointer, json_pointer}
use roundtrip.Base.{ℕ, ◌≡◌, refl, ap, ◌∙◌, Text, List, Bool, true, false, none, some}
use roundtrip.Changes.{in_path}
use roundtrip.Chars.{Unicode}
use roundtrip.Document.{Meta}
use roundtrip.Equality.Shapes.{json_equal}
use roundtrip.Equality.Agreement.{PlainNumbers, select_all-PlainNumbers, json_equal_by-json_equal}
use roundtrip.Equality.Values.{json_nodes_equal-json_equal_by}
use roundtrip.Json.Rfc.{NearRfc}
use roundtrip.Json.{Json, json_of, select, select_all}
use roundtrip.Patch.{
  Patch, Patched, patched, rejected, patch_test_failed, in_edit, operation, testing, test_result,
  test_found, apply_patch_operation,
}
use roundtrip.Pointer.{parse_json_pointer}

module _ (u : Unicode) (rune_len : ℕ → ℕ) (m : Meta) (p : Patch) (v x : Json) where
  -- what a test of the value `x` ends with in a document that stands for `v`
  pub data TestResult : Patched → Type 0 where
    equal :
        {tokens : List Text} {y : Json}
        → parse_json_pointer p.path ≡ some tokens
        → select_all select tokens v ≡ some y
        → NearRfc tokens v
        → json_equal y x ≡ true
        → TestResult (patched m)
    unequal :
        {tokens : List Text} {y : Json}
        → parse_json_pointer p.path ≡ some tokens
        → select_all select tokens v ≡ some y
        → NearRfc tokens v
        → json_equal y x ≡ false
        → TestResult (rejected patch_test_failed)
    unselected :
        {tokens : List Text} {e : PathError}
        → parse_json_pointer p.path ≡ some tokens
        → select_all select tokens v ≡ none
        → NearRfc tokens v
        → TestResult (rejected (in_edit (in_path e)))
    not_pointer :
        parse_json_pointer p.path ≡ none
        → TestResult (rejected (in_edit (in_path (bad_pointer access))))

  module _ (hv : json_of m.tokens.elems m.syntax m.root ≡ some v)
      (hx : json_of p.value.owner.tokens.elems p.value.owner.syntax p.value.node ≡ some x)
      (pv : PlainNumbers v) (px : PlainNumbers x) where
    test_found-TestResult :
        (r : Reached)
        → Pointed m.tokens.elems m.syntax m.root v p.path r
        → TestResult (test_found m p.value r)
    test_found-TestResult _ (malformed q) = not_pointer q
    test_found-TestResult _ (evaluated q (missing _ _ _ _ none_left) near) =
        unselected q none_left near
    test_found-TestResult _ (evaluated q (selected {m = n} {x = y} s _ hn) near) =
        let same =
          json_nodes_equal-json_equal_by m.tokens.elems p.value.owner.tokens.elems m.syntax
            p.value.owner.syntax n p.value.node y x hn hx
          ∙ ap (λ b. some b)
              (json_equal_by-json_equal y x (select_all-PlainNumbers _ v y pv s) px) in
        rw same (by_answer (json_equal y x) refl)
      where
        by_answer : (b : Bool) → json_equal y x ≡ b → TestResult (test_result m (some b))
        by_answer true h = equal q s near h
        by_answer false h = unequal q s near h

    -- The document stands for `v` and the value of the operation for `x`; the numbers of both are words,
    -- hexadecimal, or in decimal notation with an exponent and decimal places that together an `int` of 64
    -- bits holds. The operation `test` leaves the document as it is if the value that its pointer selects in
    -- `v` is equal to `x`; it is refused as a failed test if that value is not equal, and with the error of
    -- the pointer if the pointer selects nothing or does not parse. It never panics. Two values are equal
    -- when they are objects with as many members, each of the first equal to the member of its name in the
    -- second, arrays with equal items, the same strings, numbers in decimal notation that denote the same
    -- number, or other scalars of the same text. The tokens of the pointer together select what they select
    -- by RFC 6901, or one of them has a sign or a leading zero and they select nothing by RFC 6901.
    pub apply_patch_operation-TestResult :
        operation p.op ≡ testing → TestResult (apply_patch_operation u rune_len m p)
    unfolding apply_patch_operation
    apply_patch_operation-TestResult h = rw h (
        test_found-TestResult (json_pointer m.tokens.elems m.root p.path)
          (json_pointer-Pointed m.tokens.elems m.syntax m.root v p.path hv))
