-- ===== src/Quote/Digits.antt =====
-- Hexadecimal escapes: the digits that `appendString` writes are the ones that are read.
use roundtrip.Base.{ℕ, suc, ◌+◌, ◌*◌, ◌/◌, ◌%◌, ◌<◌, ◌≡◌, ap, ◌∙◌, Text, ◌∷◌, some, arith}
use roundtrip.Quote.{hex_value, hex_digits, hex_digit}

pub hex_value-hex_digit : (d : ℕ) → d < 16 → hex_value (hex_digit d) ≡ some d
hex_value-hex_digit d h = ground arith

pub hex_digits_cons :
    (n r d : ℕ) (s : Text)
    → d < 16
    → hex_digits (suc n) r (hex_digit d ∷ s) ≡ hex_digits n (r * 16 + d) s
unfolding hex_digits
hex_digits_cons n r d s h = rw (hex_value-hex_digit d h, hex_digits)

-- the four digits of a rune below 256
pub hex_digits_byte :
    (b : ℕ) (s : Text)
    → b < 256
    → hex_digits 4 0 (b'0' ∷ b'0' ∷ hex_digit (b / 16) ∷ hex_digit (b % 16) ∷ s) ≡ some (b, s)
hex_digits_byte b s h =
    hex_digits_cons 3 0 0 (b'0' ∷ hex_digit (b / 16) ∷ hex_digit (b % 16) ∷ s) (omega arith)
    ∙ hex_digits_cons 2 0 0 (hex_digit (b / 16) ∷ hex_digit (b % 16) ∷ s) (omega arith)
    ∙ hex_digits_cons 1 0 (b / 16) (hex_digit (b % 16) ∷ s) (omega arith)
    ∙ hex_digits_cons 0 (0 * 16 + b / 16) (b % 16) s (omega arith)
    ∙ unfold hex_digits in ap (λ x. some (x, s)) (omega arith)
