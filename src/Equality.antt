-- ===== src/Equality.antt =====
-- json/patch.go: the equality of nodes and of numbers that the operation `test` of a patch uses.
pub mod Shapes
pub mod Values
pub mod Numerals
pub mod Fractions
pub mod Cuts
pub mod Numbers
pub mod Words
pub mod Agreement
use roundtrip.Access.{Looked, object_field_at}
use roundtrip.Base.{
  ℕ, zero, suc, ◌+◌, ◌-◌, ◌*◌, ◌^◌, Text, codes, List, [], ◌∷◌, ◌++◌, Bool, true, false, not, ◌&&◌,
  ◌||◌, ◌==◌, Option, none, some, if◌then◌else◌, ltb, leb, length, text_eq,
}
use roundtrip.Decoder.{Node, node, Nodes, nil, cons, start_of}
use roundtrip.Json.{decode_string}
use roundtrip.Pointer.{digits_value}
use roundtrip.Syntax.{SyntaxOptions}
use roundtrip.Token.Symbols.{node_code}
use roundtrip.Token.{
  NodeType, object, object_field, array, array_element, string_node, number_node, Token,
}
use roundtrip.TokenList.{Elem, value_at}
use roundtrip.Tree.{bytes, count, children_of, type_of, array_element_value, field_name, on_some}

-- a fraction with its sign, `*big.Rat` before it is reduced
pub record Rat : Type 0 where
  pub negative : Bool
  pub numerator : ℕ
  pub denominator : ℕ

-- `strings.Cut` at a rune, with `none` where it is missing
abbrev pub cut_first : ℕ → Option (Text × Text) → Option (Text × Text)
cut_first c none = none
cut_first c (some (s, t)) = some (c ∷ s, t)

unfoldable pub cut_at : ℕ → Text → Option (Text × Text)
cut_at c [] = none
cut_at c (d ∷ s) = let rest = cut_at c s in if d == c then some ([], s) else cut_first d rest

-- an `int` of 64 bits by its sign and its size
pub record Signed : Type 0 where
  pub minus : Bool
  pub size : ℕ

abbrev pub bounded : Bool → ℕ → Option ℕ → Option Signed
bounded m limit none = none
bounded m limit (some n) = if leb n limit then some (record { minus = m; size = n }) else none

abbrev pub digits : Text → Option ℕ
digits [] = none
digits (c ∷ s) = digits_value 0 (c ∷ s)

-- `strconv.Atoi`
abbrev pub atoi : Text → Option Signed
atoi [] = none
atoi (c ∷ s) =
    if c == b'-'
    then bounded true (2 ^ 63) (digits s)
    else if c == b'+'
    then bounded false (2 ^ 63 - 1) (digits s)
    else bounded false (2 ^ 63 - 1) (digits (c ∷ s))

-- `(*big.Int).SetString` in base 10
abbrev pub signed : Bool → Option ℕ → Option Signed
signed m none = none
signed m (some n) = some (record { minus = m; size = n })

abbrev pub set_string : Text → Option Signed
set_string [] = none
set_string (c ∷ s) =
    if c == b'-'
    then signed true (digits s)
    else if c == b'+'
    then signed false (digits s)
    else signed false (digits (c ∷ s))

abbrev pub flip : Bool → Bool → Bool
flip true b = not b
flip false b = b

abbrev pub whole : Bool → ℕ → Rat
whole m n = record { negative = m; numerator = n; denominator = 1 }

-- the numerator with `scale - exponent` decimal places: the difference wraps round in 64 bits, and a
-- power of ten whose exponent is negative is 1
abbrev pub placed : Bool → ℕ → ℕ → Signed → Rat
placed m n scale e =
    if e.minus
    then (if ltb (scale + e.size) (2 ^ 63)
        then record { negative = m; numerator = n; denominator = 10 ^ (scale + e.size) }
        else if scale + e.size == 2 ^ 63
        then whole m n
        else whole m (n * 10 ^ (2 ^ 64 - (scale + e.size))))
    else if leb scale e.size
    then whole m (n * 10 ^ (e.size - scale))
    else record { negative = m; numerator = n; denominator = 10 ^ (scale - e.size) }

abbrev pub with_digits : Bool → Text → ℕ → Signed → Option Rat
with_digits m ds scale e = in_base (set_string ds)
  where
    in_base : Option Signed → Option Rat
    in_base none = none
    in_base (some d) = some (placed (flip m d.minus) d.size scale e)

-- the mantissa, cut at its point
abbrev pub of_mantissa : Bool → Text → Option (Text × Text) → Option Signed → Option Rat
of_mantissa m t p none = none
of_mantissa m t none (some e) = with_digits m t 0 e
of_mantissa m t (some (w, f)) (some e) = with_digits m (w ++ f) (length f) e

abbrev pub zero_exponent : Option Signed
zero_exponent = some (record { minus = false; size = 0 })

abbrev pub with_exponent : Bool → Text → Option (Text × Text) → Option (Text × Text) → Option Rat
with_exponent m s (some (t, e)) _ = of_mantissa m t (cut_at b'.' t) (atoi e)
with_exponent m s none (some (t, e)) = of_mantissa m t (cut_at b'.' t) (atoi e)
with_exponent m s none none = of_mantissa m s (cut_at b'.' s) zero_exponent

abbrev pub unsigned_rat : Bool → Text → Option Rat
unsigned_rat m s = with_exponent m s (cut_at b'e' s) (cut_at b'E' s)

-- `jsonNumberRat`
unfoldable pub json_number_rat : Text → Option Rat
unfolding cut_at
json_number_rat [] = unsigned_rat false []
json_number_rat (c ∷ s) =
    if c == b'-'
    then unsigned_rat true s
    else if c == b'+'
    then unsigned_rat false s
    else unsigned_rat false (c ∷ s)

-- `Cmp` of fractions is zero
abbrev pub rat_eq : Rat → Rat → Bool
rat_eq a b =
    let same = a.numerator * b.denominator == b.numerator * a.denominator in
    if a.numerator == 0
    then b.numerator == 0
    else (if a.negative then b.negative else not b.negative) && same

abbrev pub rats_equal : Text → Text → Option Rat → Option Rat → Bool
rats_equal a b (some p) (some q) = rat_eq p q
rats_equal a b _ _ = text_eq a b

-- `jsonNumbersEqual`
unfoldable pub json_numbers_equal : Text → Text → Bool
unfolding json_number_rat
json_numbers_equal a b = rats_equal a b (json_number_rat a) (json_number_rat b)

-- one result behind another, where only `true` goes on
abbrev pub and_then : Option Bool → Option Bool → Option Bool
and_then none r = none
and_then (some false) r = some false
and_then (some true) r = r

-- what a field's name finds in the other object: a panic, nothing, or a value to compare
abbrev pub by_looked : Looked → (Node → Option Bool) → Option Bool → Option Bool
by_looked none eq rest = none
by_looked (some none) eq rest = some false
by_looked (some (some (i, w))) eq rest = and_then (eq w) rest

abbrev pub is_text : Text → Option Text → Bool
is_text s none = false
is_text s (some t) = text_eq s t

module _ (ea eb : List Elem) (oa ob : SyntaxOptions) where
  -- the strings that two nodes are decoded to: the second is read where the first can be decoded
  abbrev pub strings_from : Option Text → ℕ → Option Bool
  strings_from none s' = some false
  strings_from (some x) s' = on_some (value_at eb s') λ t'. some (is_text x (decode_string t' ob))

  abbrev pub strings_equal : ℕ → ℕ → Option Bool
  strings_equal s s' = on_some (value_at ea s) λ t. strings_from (decode_string t oa) s'

  abbrev pub numbers_equal : ℕ → ℕ → Option Bool
  numbers_equal s s' =
      on_some (value_at ea s)
        λ t. on_some (value_at eb s') λ t'. some (json_numbers_equal t.literal t'.literal)

  abbrev pub if_same : Bool → Option Bool → Option Bool
  if_same b r = if b then r else some false

  -- `jsonNodesEqual`; the outer option is a panic
  unfoldable mutual
    pub json_nodes_equal : Node → Node → Option Bool
    json_nodes_equal (node object s e cs) b =
        let fields = fields_equal cs b in
        if_same (node_code object == node_code (type_of b))
          (if_same (count cs == count (children_of b)) fields)
    json_nodes_equal (node array s e cs) b =
        let elements = elements_equal cs (children_of b) in
        if_same (node_code array == node_code (type_of b))
          (if_same (count cs == count (children_of b)) elements)
    json_nodes_equal (node string_node s e cs) b =
        if_same (node_code string_node == node_code (type_of b)) (strings_equal s (start_of b))
    json_nodes_equal (node number_node s e cs) b =
        if_same (node_code number_node == node_code (type_of b)) (numbers_equal s (start_of b))
    json_nodes_equal (node t s e cs) b =
        if_same (node_code t == node_code (type_of b))
          (some (text_eq (bytes ea (node t s e cs)) (bytes eb b)))

    pub fields_equal : Nodes → Node → Option Bool
    fields_equal nil b = some true
    fields_equal (cons (node object_field s e (cons k (cons v vs))) fs) b =
        let rest = fields_equal fs b in
        on_some (field_name ea (node object_field s e (cons k (cons v vs))))
          λ name. by_looked (object_field_at eb b name) (λ w. json_nodes_equal v w) rest
    fields_equal (cons f fs) b =
        on_some (field_name ea f) λ name. by_looked (object_field_at eb b name) (λ w. none) none

    pub elements_equal : Nodes → Nodes → Option Bool
    elements_equal nil bs = some true
    elements_equal (cons (node t s e (cons v vs)) es) (cons b bs) =
        let rest = elements_equal es bs in
        on_some (array_element_value b) λ w. and_then (json_nodes_equal v w) rest
    elements_equal _ _ = none
