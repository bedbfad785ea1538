-- ===== src/Loader/Lines.antt =====
-- The lines of a file that `write_prg_file` of src/prg_loader.c writes, and how `load_prg_file` splits
-- them again.
use m.Base.{
  ℕ, zero, suc, ◌+◌, ◌*◌, ◌/◌, ◌%◌, ◌<◌, ◌≡◌, ◌≢◌, refl, arith, some, [], ◌∷◌, ◌++◌, length,
}
use m.Text.{Bytes, hex_char, format_02x, format_04x, take_line, until_nul, take_token}
use m.Text.Hex.{hex_char_range}
use m.Loader.{print_bytes}

-- Every byte is another than `c`.
abbrev pub Lacks : ℕ → Bytes → Type 0
Lacks c [] = Unit
Lacks c (x ∷ xs) = (x ≢ c) × Lacks c xs

abbrev pub AreBytes : Bytes → Type 0
AreBytes [] = Unit
AreBytes (b ∷ bs) = (b < 256) × AreBytes bs

-- The bytes of a segment as they are printed.
abbrev pub body : Bytes → Bytes
body [] = []
body (b ∷ bs) = hex_char (b / 16 % 16) ∷ hex_char (b % 16) ∷ b' ' ∷ body bs

abbrev pub address : ℕ → Bytes
address a = b'0' ∷ b'x' ∷ format_04x a

pub print_bytes-body : (bs : Bytes) → print_bytes (length bs) bs ≡ some (body bs)
unfolding print_bytes format_02x
print_bytes-body [] = refl
print_bytes-body (b ∷ bs) = rw (print_bytes-body bs)

pub length-body : (bs : Bytes) → length (body bs) ≡ 3 * length bs
length-body [] = omega arith
length-body (b ∷ bs) = omega (arith, length-body bs)

-- A line without a newline inside is read whole if it fits.
pub take_line_whole :
    (xs rest : Bytes) (room : ℕ)
    → Lacks b'\n' xs
    → length xs < room
    → take_line room (xs ++ (b'\n' ∷ rest)) ≡ (xs ++ (b'\n' ∷ []), rest)
unfolding take_line
take_line_whole xs rest zero h k = absurd (omega arith)
take_line_whole [] rest (suc room) h k = refl
take_line_whole (x ∷ xs) rest (suc room) (ne, h) k = ground (arith, take_line_whole xs rest room h)

pub until_nul_whole : (xs : Bytes) → Lacks 0 xs → until_nul xs ≡ xs
unfolding until_nul
until_nul_whole [] h = refl
until_nul_whole (x ∷ xs) (ne, h) = ground (arith, until_nul_whole xs h)

pub take_token_whole :
    (d : ℕ) (xs rest : Bytes) → Lacks d xs → take_token d (xs ++ (d ∷ rest)) ≡ (xs, rest)
unfolding take_token
take_token_whole d [] rest h = ground arith
take_token_whole d (x ∷ xs) rest (ne, h) = ground (arith, take_token_whole d xs rest h)

Lacks-append : (c : ℕ) (xs ys : Bytes) → Lacks c xs → Lacks c ys → Lacks c (xs ++ ys)
Lacks-append c [] ys h k = k
Lacks-append c (x ∷ xs) ys (ne, h) k = (ne, Lacks-append c xs ys h k)

module _ (c : ℕ) (apart : (d : ℕ) → d < 16 → hex_char d ≢ c) where
  Lacks-body : (bs : Bytes) → b' ' ≢ c → Lacks c (body bs)
  Lacks-body [] h = tt
  Lacks-body (b ∷ bs) h =
      (apart (b / 16 % 16) (omega arith), (apart (b % 16) (omega arith), (h, Lacks-body bs h)))

  Lacks-address : (a : ℕ) → b'0' ≢ c → b'x' ≢ c → Lacks c (address a)
  unfolding format_04x
  Lacks-address a h k = (
    h,
    (
      k,
      (
        apart (a / 4096 % 16) (omega arith),
        (
          apart (a / 256 % 16) (omega arith),
          (apart (a / 16 % 16) (omega arith), (apart (a % 16) (omega arith), tt)),
        ),
      ),
    ),
  )

-- A printed line, without its newline.
abbrev pub content : ℕ → Bytes → Bytes
content a bs = address a ++ (b':' ∷ b' ' ∷ body bs)

content-Lacks :
    (c a : ℕ) (bs : Bytes)
    → ((d : ℕ) → d < 16 → hex_char d ≢ c)
    → b'0' ≢ c
    → b'x' ≢ c
    → b':' ≢ c
    → b' ' ≢ c
    → Lacks c (content a bs)
content-Lacks c a bs h p q r s =
    Lacks-append c (address a) _ (Lacks-address c h a p q) (r, (s, Lacks-body c h bs s))

pub content_no_newline : (a : ℕ) (bs : Bytes) → Lacks b'\n' (content a bs)
content_no_newline a bs =
    content-Lacks b'\n' a bs (λ d h. (hex_char_range d h).1) (omega arith) (omega arith)
      (omega arith) (omega arith)

content_no_nul : (a : ℕ) (bs : Bytes) → Lacks 0 (content a bs)
content_no_nul a bs =
    content-Lacks 0 a bs (λ d h. (hex_char_range d h).0) (omega arith) (omega arith) (omega arith)
      (omega arith)

pub line_no_nul : (a : ℕ) (bs : Bytes) → Lacks 0 (content a bs ++ (b'\n' ∷ []))
line_no_nul a bs = Lacks-append 0 (content a bs) _ (content_no_nul a bs) (omega arith, tt)

pub address_no_colon : (a : ℕ) → Lacks b':' (address a)
address_no_colon a =
    Lacks-address b':' (λ d h. (hex_char_range d h).3) a (omega arith) (omega arith)

pub length-content : (a : ℕ) (bs : Bytes) → length (content a bs) ≡ 8 + 3 * length bs
unfolding format_04x
length-content a bs = omega (arith, length-body bs)
