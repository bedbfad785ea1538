-- ===== src/Text.antt =====
-- The functions of the C library that the program calls on text. A text is a list of bytes; in
-- memory it ends at the first NUL. `long` has 32 bits, as on the board of src/Makefile.
pub mod Hex
use m.Base.{
  ℕ, zero, suc, ◌+◌, ◌-◌, ◌*◌, ◌/◌, ◌%◌, ◌^◌, Bool, true, false, ◌&&◌, ◌||◌, Option, none, some,
  List, [], ◌∷◌, ◌==◌, leb, ltb, if◌then◌else◌,
}
use m.Base.Int.{ℤ, pos, negsuc}

abbrev pub Bytes : Type 0
Bytes = List ℕ

-- What `%X` prints for one digit.
unfoldable pub hex_char : ℕ → ℕ
hex_char d = if ltb d 10 then b'0' + d else b'A' + (d - 10)

-- `%02X` of a byte and `%04X` of a 16-bit number.
unfoldable pub format_02x : ℕ → Bytes
format_02x v = hex_char (v / 16 % 16) ∷ hex_char (v % 16) ∷ []

unfoldable pub format_04x : ℕ → Bytes
format_04x v =
    hex_char (v / 4096 % 16)
    ∷ hex_char (v / 256 % 16)
    ∷ hex_char (v / 16 % 16)
    ∷ hex_char (v % 16)
    ∷ []

-- The text up to the NUL.
unfoldable pub until_nul : Bytes → Bytes
until_nul [] = []
until_nul (c ∷ text) = let rest = until_nul text in if c == 0 then [] else c ∷ rest

-- At most `room` bytes, up to the first newline and with it.
unfoldable pub take_line : ℕ → Bytes → Bytes × Bytes
take_line zero text = ([], text)
take_line (suc room) [] = ([], [])
take_line (suc room) (c ∷ text) =
    let (line, rest) = take_line room text in
    if c == b'\n' then (c ∷ [], text) else (c ∷ line, rest)

-- `fgets` on a buffer of `room + 1` bytes: `none` at the end of the file, and else the line and what is
-- left of the file.
unfoldable pub fgets : ℕ → Bytes → Option (Bytes × Bytes)
unfolding take_line
fgets room [] = none
fgets room (c ∷ text) = some (take_line room (c ∷ text))

unfoldable pub skip_delimiters : ℕ → Bytes → Bytes
skip_delimiters delimiter [] = []
skip_delimiters delimiter (c ∷ text) =
    let rest = skip_delimiters delimiter text in if c == delimiter then rest else c ∷ text

-- The bytes before the next delimiter, and those behind it.
unfoldable pub take_token : ℕ → Bytes → Bytes × Bytes
take_token delimiter [] = ([], [])
take_token delimiter (c ∷ text) =
    let (token, rest) = take_token delimiter text in
    if c == delimiter then ([], text) else (c ∷ token, rest)

abbrev pub nonempty_token : ℕ → Bytes → Option (Bytes × Bytes)
nonempty_token delimiter [] = none
nonempty_token delimiter (c ∷ text) = some (take_token delimiter (c ∷ text))

-- `strtok` with one delimiter: the token, and the text that the next call goes on with.
unfoldable pub strtok : ℕ → Bytes → Option (Bytes × Bytes)
unfolding skip_delimiters take_token
strtok delimiter text = nonempty_token delimiter (skip_delimiters delimiter text)

unfoldable pub is_space : ℕ → Bool
is_space c = c == b' ' || (leb 9 c && leb c 13)

unfoldable pub skip_space : Bytes → Bytes
unfolding is_space
skip_space [] = []
skip_space (c ∷ text) = let rest = skip_space text in if is_space c then rest else c ∷ text

-- The value of a digit or a letter; 36 for all else.
unfoldable pub digit_value : ℕ → ℕ
digit_value c =
    if leb b'0' c && leb c b'9'
    then c - b'0'
    else if leb b'A' c && leb c b'Z'
    then c - b'A' + 10
    else if leb b'a' c && leb c b'z'
    then c - b'a' + 10
    else 36

-- The digits of a number, up to the first byte that is none.
unfoldable pub number : ℕ → ℕ → Bytes → ℕ
unfolding digit_value
number base acc [] = acc
number base acc (c ∷ text) =
    let rest = number base (acc * base + digit_value c) text in
    if ltb (digit_value c) base then rest else acc

-- `0x` or `0X` before a hexadecimal digit.
abbrev is_hex_prefix : ℕ → ℕ → ℕ → Bool
is_hex_prefix a b c = (a == b'0') && (b == b'x' || b == b'X') && ltb (digit_value c) 16

-- The base and the digits, given the base asked for: 16 allows the prefix, 0 lets the text choose.
unfoldable pub detect_base : ℕ → Bytes → ℕ × Bytes
unfolding digit_value
detect_base base (a ∷ b ∷ c ∷ text) =
    if (base == 16 || base == 0) && is_hex_prefix a b c
    then (16, c ∷ text)
    else if base == 0
    then (if a == b'0' then 8 else 10, a ∷ b ∷ c ∷ text)
    else (base, a ∷ b ∷ c ∷ text)
detect_base base (a ∷ text) = (if base == 0 then (if a == b'0' then 8 else 10) else base, a ∷ text)
detect_base base [] = (base, [])

abbrev pub magnitude_of : ℕ × Bytes → ℕ
magnitude_of (base, text) = number base 0 text

-- The sign, and the number behind it.
unfoldable pub sign_and_magnitude : ℕ → Bytes → Bool × ℕ
unfolding detect_base number
sign_and_magnitude base [] = (false, 0)
sign_and_magnitude base (c ∷ text) =
    if c == b'-'
    then (true, magnitude_of (detect_base base text))
    else if c == b'+'
    then (false, magnitude_of (detect_base base text))
    else (false, magnitude_of (detect_base base (c ∷ text)))

-- `strtol`: clamped to the range of `long`.
abbrev pub clamp_long : Bool × ℕ → ℤ
clamp_long (true, zero) = pos 0
clamp_long (true, suc n) = if ltb n (2 ^ 31) then negsuc n else negsuc (2 ^ 31 - 1)
clamp_long (false, n) = if ltb n (2 ^ 31) then pos n else pos (2 ^ 31 - 1)

unfoldable pub strtol : ℕ → Bytes → ℤ
unfolding skip_space sign_and_magnitude
strtol base text = clamp_long (sign_and_magnitude base (skip_space text))

-- `strtoul`: too large a number gives the largest, a minus sign negates in 32 bits.
abbrev pub clamp_unsigned : Bool × ℕ → ℕ
clamp_unsigned (negative, n) =
    if leb (2 ^ 32) n then 2 ^ 32 - 1 else if negative then (2 ^ 32 - n) % 2 ^ 32 else n

unfoldable pub strtoul : ℕ → Bytes → ℕ
unfolding skip_space sign_and_magnitude
strtoul base text = clamp_unsigned (sign_and_magnitude base (skip_space text))

unfoldable pub atoi : Bytes → ℤ
unfolding strtol
atoi text = strtol 10 text

-- Conversion of a `long` to `uint8_t` and `uint16_t`.
abbrev pub long_to_u8 : ℤ → ℕ
long_to_u8 (pos n) = n % 256
long_to_u8 (negsuc n) = 255 - n % 256

abbrev pub long_to_u16 : ℤ → ℕ
long_to_u16 (pos n) = n % 65536
long_to_u16 (negsuc n) = 65535 - n % 65536
