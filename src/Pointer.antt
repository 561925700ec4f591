-- ===== src/Pointer.antt =====
-- json/path.go: the reading of JSON pointers and of their array indices.
pub mod Escape
pub mod RoundTrip
pub mod Index
pub mod Decimal
pub mod Positional
use roundtrip.Base.{
  ℕ, zero, suc, ◌+◌, ◌*◌, ◌-◌, ◌^◌, Text, codes, List, [], ◌∷◌, Bool, true, false, Option, none,
  some, ◌==◌, if◌then◌else◌, ltb, text_eq,
}
use roundtrip.Chars.{ascii_digit}

-- a function under an error
module _ {A B : Type 0} where
  abbrev pub on_some : (A → B) → Option A → Option B
  on_some f none = none
  on_some f (some a) = some (f a)

-- `unescapeJSONPointerToken`; the flag says that a `~` was read
unfoldable pub unescape_from : Bool → Text → Option Text
unescape_from false [] = some []
unescape_from true [] = none
unescape_from false (c ∷ s) =
    let plain = on_some (λ t. c ∷ t) (unescape_from false s) in
    let escape = unescape_from true s in if c == b'~' then escape else plain
unescape_from true (c ∷ s) =
    let rest = unescape_from false s in
    if c == b'0'
    then on_some (λ t. b'~' ∷ t) rest
    else if c == b'1'
    then on_some (λ t. b'/' ∷ t) rest
    else none

abbrev pub unescape_json_pointer_token : Text → Option Text
unescape_json_pointer_token s = unescape_from false s

abbrev pub push_first : ℕ → List Text → List Text
push_first c [] = (c ∷ []) ∷ []
push_first c (s ∷ ss) = (c ∷ s) ∷ ss

-- `strings.Split(s, "/")`
unfoldable pub split : Text → List Text
split [] = [] ∷ []
split (c ∷ s) = let rest = split s in if c == b'/' then [] ∷ rest else push_first c rest

abbrev pub both : Option Text → Option (List Text) → Option (List Text)
both (some t) (some ts) = some (t ∷ ts)
both _ _ = none

-- the loop of `parseJSONPointer`
abbrev pub unescape_all : List Text → Option (List Text)
unescape_all [] = some []
unescape_all (s ∷ ss) = both (unescape_json_pointer_token s) (unescape_all ss)

-- `parseJSONPointer`
unfoldable pub parse_json_pointer : Text → Option (List Text)
unfolding split
parse_json_pointer [] = some []
parse_json_pointer (c ∷ s) = if c == b'/' then unescape_all (split s) else none

-- the digits of a number behind the digits of `n`
unfoldable pub digits_value : ℕ → Text → Option ℕ
digits_value n [] = some n
digits_value n (c ∷ s) =
    let rest = digits_value (n * 10 + (c - b'0')) s in if ascii_digit c then rest else none

abbrev pub some_value : Text → Option ℕ
some_value [] = none
some_value (c ∷ s) = digits_value 0 (c ∷ s)

-- what `pointerArrayIndex` returns
pub data ArrayIndex : Type 0 where
  index : ℕ → ArrayIndex
  invalid_append invalid_path_segment : ArrayIndex

-- an `int` of 64 bits that is not negative
abbrev pub positive : Option ℕ → ArrayIndex
positive none = invalid_path_segment
positive (some n) = if ltb n (2 ^ 63) then index n else invalid_path_segment

-- behind a minus sign zero is left
abbrev pub negative : Option ℕ → ArrayIndex
negative none = invalid_path_segment
negative (some zero) = index zero
negative (some (suc n)) = invalid_path_segment

-- `strconv.Atoi`, and the test that its result is not negative
abbrev pub atoi_index : Text → ArrayIndex
atoi_index [] = invalid_path_segment
atoi_index (c ∷ s) =
    if c == b'-'
    then negative (some_value s)
    else if c == b'+'
    then positive (some_value s)
    else positive (some_value (c ∷ s))

-- `pointerArrayIndex`
pub pointer_array_index : Text → Bool → ArrayIndex
pointer_array_index token allow_append =
    if text_eq token (codes "-")
    then (if allow_append then index 0 else invalid_append)
    else atoi_index token
