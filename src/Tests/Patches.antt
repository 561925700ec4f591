-- ===== src/Tests/Patches.antt =====
-- Patches at a concrete document.
use roundtrip.Equality.Agreement.{PlainNumbers, PlainItems}
use roundtrip.Equality.Numerals.{Plain, notation}
use roundtrip.Base.{ℕ, false, ◌⊎◌, inl, inr, arith, ◌≡◌, refl, codes, [], ◌∷◌, text_eq}
use roundtrip.Chars.{ascii}
use roundtrip.Json.{number}
use roundtrip.Patch.Compared.{TestResult, apply_patch_operation-TestResult}
use roundtrip.Patch.Runs.{Outcome, apply_patch-Outcome}
use roundtrip.Patch.{Patch, operation, testing, apply_patch_operation, apply_patch}
use roundtrip.Tests.Editing.{array_document, one_handle}
use roundtrip.Tests.Paths.{array_value, array_root-value}
use roundtrip.Tests.Values.{one-value}

-- the test that the first element of `[1,2]` is 1, and the removal of the second
abbrev test_first : Patch
test_first = record { op = codes "test"; path = codes "/0"; source = []; value = one_handle }

abbrev remove_second : Patch
remove_second = record { op = codes "remove"; path = codes "/1"; source = []; value = one_handle }

is_test : operation test_first.op ≡ testing
unfolding text_eq
is_test = refl

digit-Plain : (c : ℕ) → (c ≡ b'1') ⊎ (c ≡ b'2') → Plain (c ∷ [])
digit-Plain c (inl e) =
    rw e (notation (record { is_minus = false; mantissa = 1; up = 0; down = 0 }) refl (omega arith))
digit-Plain c (inr e) =
    rw e (notation (record { is_minus = false; mantissa = 2; up = 0; down = 0 }) refl (omega arith))

one-PlainNumbers : PlainNumbers (number (codes "1"))
unfolding PlainNumbers
one-PlainNumbers = digit-Plain b'1' (inl refl)

array_value-PlainNumbers : PlainNumbers array_value
unfolding PlainNumbers PlainItems
array_value-PlainNumbers = (digit-Plain b'1' (inl refl), (digit-Plain b'2' (inr refl), tt))

apply_patch_operation-TestResult_example :
    TestResult ascii
      (λ r. 1)
      array_document
      test_first
      array_value
      (number (codes "1"))
      (apply_patch_operation ascii (λ r. 1) array_document test_first)
apply_patch_operation-TestResult_example =
    apply_patch_operation-TestResult ascii (λ r. 1) array_document test_first array_value
      (number (codes "1")) array_root-value one-value array_value-PlainNumbers one-PlainNumbers
      is_test

apply_patch-Outcome_example :
    Outcome ascii
      (λ r. 1)
      0
      array_document
      (test_first ∷ remove_second ∷ [])
      (apply_patch ascii (λ r. 1) 0 array_document (test_first ∷ remove_second ∷ []))
apply_patch-Outcome_example =
    apply_patch-Outcome ascii (λ r. 1) 0 array_document (test_first ∷ remove_second ∷ [])
