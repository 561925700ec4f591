-- ===== src/Patch/Runs.antt =====
-- json/patch.go: operations are applied one after the other, up to the first that is refused.
use roundtrip.Base.{
  ℕ, suc, ◌+◌, ◌≡◌, refl, ap, List, [], ◌∷◌, ◌++◌, Option, none, some, length, arith,
}
use roundtrip.Chars.{Unicode}
use roundtrip.Document.{Meta}
use roundtrip.Patch.{
  Patch, Rejection, Patched, patched, rejected, patch_crash, patch_starved, validate_patch,
  apply_patch_operation, checked, Applied, applied, stopped, crashed_at, starved_at, next_operation,
  apply_patch,
}

module _ (u : Unicode) (rune_len : ℕ → ℕ) where
  -- what a single operation does to a document
  pub operate : Meta → Patch → Patched
  operate m p = checked (validate_patch p) (apply_patch_operation u rune_len m p)

  -- valid operations that are applied in order
  pub data Run : Meta → List Patch → Meta → Type 0 where
    stay : {m : Meta} → Run m [] m
    step :
        {m m' m'' : Meta} {p : Patch} {ps : List Patch}
        → validate_patch p ≡ none
        → apply_patch_operation u rune_len m p ≡ patched m'
        → Run m' ps m''
        → Run m (p ∷ ps) m''

  -- the first operations run, and the one behind them ends in `bad`
  pub record Stop (m : Meta) (ps : List Patch) (count : ℕ) (bad : Patched) : Type 0 where
    pub before : List Patch
    pub operation : Patch
    pub others : List Patch
    pub all : ps ≡ before ++ (operation ∷ others)
    pub many : length before ≡ count
    pub middle : Meta
    pub run : Run m before middle
    pub ends : operate middle operation ≡ bad

  pub data Outcome (k : ℕ) (m : Meta) (ps : List Patch) : Applied → Type 0 where
    completed : {m' : Meta} → Run m ps m' → Outcome k m ps (applied m')
    refused :
        {i j : ℕ} {e : Rejection}
        → j ≡ k + i
        → Stop m ps i (rejected e)
        → Outcome k m ps (stopped j e)
    crashed : {i j : ℕ} → j ≡ k + i → Stop m ps i patch_crash → Outcome k m ps (crashed_at j)
    starved : {i j : ℕ} → j ≡ k + i → Stop m ps i patch_starved → Outcome k m ps (starved_at j)

  Stop-here :
      (m : Meta) (p : Patch) (ps : List Patch) (bad : Patched)
      → operate m p ≡ bad
      → Stop m (p ∷ ps) 0 bad
  Stop-here m p ps bad h = record {
    before = [];
    operation = p;
    others = ps;
    all = refl;
    many = refl;
    middle = m;
    run = stay;
    ends = h;
  }

  Stop-later :
      {m m' : Meta} {p : Patch} {ps : List Patch} {i : ℕ} {bad : Patched}
      → validate_patch p ≡ none
      → apply_patch_operation u rune_len m p ≡ patched m'
      → Stop m' ps i bad
      → Stop m (p ∷ ps) (suc i) bad
  Stop-later {p = p} v h s = record {
    before = p ∷ s.before;
    operation = s.operation;
    others = s.others;
    all = ap (◌∷◌ p) s.all;
    many = ap suc s.many;
    middle = s.middle;
    run = step v h s.run;
    ends = s.ends;
  }

  later :
      {m m' : Meta} {p : Patch} {ps : List Patch} {k : ℕ} {r : Applied}
      → validate_patch p ≡ none
      → apply_patch_operation u rune_len m p ≡ patched m'
      → Outcome (k + 1) m' ps r
      → Outcome k m (p ∷ ps) r
  later v h (completed run) = completed (step v h run)
  later v h (refused q s) = refused (omega arith) (Stop-later v h s)
  later v h (crashed q s) = crashed (omega arith) (Stop-later v h s)
  later v h (starved q s) = starved (omega arith) (Stop-later v h s)

  -- `applyPatch` applies the operations in order: either each is valid and is applied to what those before
  -- it left, or the operations before one of them were, and that one is refused, panics or runs out of
  -- fuel, and the result has its index.
  pub apply_patch-Outcome :
      (k : ℕ) (m : Meta) (ps : List Patch) → Outcome k m ps (apply_patch u rune_len k m ps)
  unfolding apply_patch operate
  apply_patch-Outcome k m [] = completed stay
  apply_patch-Outcome k m (p ∷ ps) =
      by_check (validate_patch p) refl (apply_patch_operation u rune_len m p) refl
        (λ m'. apply_patch-Outcome (k + 1) m' ps)
    where
      by_check :
          (v : Option Rejection)
          → validate_patch p ≡ v
          → (r : Patched) → apply_patch_operation u rune_len m p ≡ r
          → ((m' : Meta) → Outcome (k + 1) m' ps (apply_patch u rune_len (k + 1) m' ps))
          → Outcome k m
              (p ∷ ps)
              (next_operation k (checked v r) (λ m'. apply_patch u rune_len (k + 1) m' ps))
      by_check (some e) hv r hr again =
          refused {i = 0} (omega arith) (Stop-here m p ps (rejected e) (rw hv refl))
      by_check none hv (patched m') hr again = later hv hr (again m')
      by_check none hv (rejected e) hr again =
          refused {i = 0} (omega arith) (Stop-here m p ps (rejected e) (rw (hv, hr) refl))
      by_check none hv patch_crash hr again =
          crashed {i = 0} (omega arith) (Stop-here m p ps patch_crash (rw (hv, hr) refl))
      by_check none hv patch_starved hr again =
          starved {i = 0} (omega arith) (Stop-here m p ps patch_starved (rw (hv, hr) refl))
