-- ===== src/Text/Hex.antt =====
-- Numbers that are printed in hexadecimal and read again.
use m.Base.{ℕ, ◌+◌, ◌*◌, ◌/◌, ◌%◌, ◌<◌, ◌≡◌, ◌≢◌, ◌∙◌, lt→ltb, arith, true, false, [], ◌∷◌, ltb}
use m.Base.Int.{pos}
use m.Text.{
  Bytes, hex_char, format_02x, format_04x, digit_value, number, strtol, skip_space, detect_base,
  sign_and_magnitude, magnitude_of,
}

-- The value of a digit is read back, and a digit is no separator.
digit_value-hex_char : (d : ℕ) → d < 16 → digit_value (hex_char d) ≡ d
unfolding digit_value hex_char
digit_value-hex_char d h = ground arith

pub hex_char_range :
    (d : ℕ)
    → d < 16
    → (hex_char d ≢ 0) × (hex_char d ≢ b'\n') × (hex_char d ≢ b' ') × (hex_char d ≢ b':')
unfolding hex_char
hex_char_range d h = ground arith

number_digit :
    (acc d : ℕ) (text : Bytes)
    → d < 16
    → number 16 acc (hex_char d ∷ text) ≡ number 16 (acc * 16 + d) text
unfolding number
number_digit acc d text h = ground (arith, digit_value-hex_char d)

-- A digit stops neither the blanks nor the sign.
digit_first :
    (d : ℕ) (text : Bytes)
    → d < 16
    → (skip_space (hex_char d ∷ text) ≡ hex_char d ∷ text)
      × (sign_and_magnitude 16 (hex_char d ∷ text)
          ≡ (false, magnitude_of (detect_base 16 (hex_char d ∷ text))))
unfolding skip_space sign_and_magnitude hex_char
digit_first d text h = ground arith

two_digits : (a b : ℕ) → a < 16 → b < 16 → number 16 0 (hex_char a ∷ hex_char b ∷ []) ≡ a * 16 + b
unfolding number
two_digits a b h k =
    rw (number_digit 0 a (hex_char b ∷ []) h) (rw (number_digit (0 * 16 + a) b [] k) (omega arith))

-- `strtol` in base 16 reads back a byte that `%02X` printed.
pub strtol-format_02x : (v : ℕ) → v < 256 → strtol 16 (format_02x v) ≡ pos v
unfolding strtol format_02x detect_base
strtol-format_02x v h =
    let a = v / 16 % 16 in
    let b = v % 16 in
    let first = digit_first a (hex_char b ∷ []) (omega arith) in
    let value : number 16 0 (hex_char a ∷ hex_char b ∷ []) ≡ v =
      two_digits a b (omega arith) (omega arith) ∙ omega arith in
    rw (first.0, first.1, value) (ground arith)

four_digits :
    (a b c d : ℕ)
    → a < 16
    → b < 16
    → c < 16
    → d < 16
    → number 16 0 (hex_char a ∷ hex_char b ∷ hex_char c ∷ hex_char d ∷ [])
      ≡ ((a * 16 + b) * 16 + c) * 16 + d
unfolding number
four_digits a b c d p q r s =
    number_digit 0 a (hex_char b ∷ hex_char c ∷ hex_char d ∷ []) p
    ∙ number_digit (0 * 16 + a) b (hex_char c ∷ hex_char d ∷ []) q
    ∙ number_digit ((0 * 16 + a) * 16 + b) c (hex_char d ∷ []) r
    ∙ number_digit (((0 * 16 + a) * 16 + b) * 16 + c) d [] s
    ∙ omega arith

-- The same of a 16-bit number that `0x%04X` printed.
pub strtol-format_04x : (v : ℕ) → v < 65536 → strtol 16 (b'0' ∷ b'x' ∷ format_04x v) ≡ pos v
unfolding strtol format_04x detect_base sign_and_magnitude skip_space
strtol-format_04x v h =
    let a = v / 4096 % 16 in
    let b = v / 256 % 16 in
    let c = v / 16 % 16 in
    let d = v % 16 in
    let is_digit : digit_value (hex_char a) ≡ a = digit_value-hex_char a (omega arith) in
    let value : number 16 0 (hex_char a ∷ hex_char b ∷ hex_char c ∷ hex_char d ∷ []) ≡ v =
      four_digits a b c d (omega arith) (omega arith) (omega arith) (omega arith) ∙ omega arith in
    let small : ltb a 16 ≡ true = lt→ltb a 16 (omega arith) in
    rw (is_digit, small, value) (ground arith)
