-- ===== src/Progmem.antt =====
-- src/program.h: the program ROM, 32768 bytes at $8000, assembled from fibonacci.s.
use m.Base.{
  ℕ, zero, suc, ◌-◌, ◌<◌, inl, inr, arith, Bool-cases, List, [], ◌∷◌, Option, none, some, ltb,
  if◌then◌else◌, get_or,
}

-- The first rows of the array, up to its last non-zero byte.
abbrev program : List ℕ
program =
    0xa2 ∷ 0x01 ∷ 0x86 ∷ 0x00 ∷ 0x38 ∷ 0xa0 ∷ 0x0d ∷ 0x98 ∷ 0xe9 ∷ 0x03 ∷ 0xa8 ∷ 0x18 ∷ 0xa9 ∷ 0x02
    ∷ 0x85 ∷ 0x01 ∷ 0xa6 ∷ 0x01 ∷ 0x65 ∷ 0x00 ∷ 0x85 ∷ 0x01 ∷ 0x86 ∷ 0x00 ∷ 0x88 ∷ 0xd0 ∷ 0xf5
    ∷ 0x8a ∷ 0xc9 ∷ 0xe9 ∷ 0xf0 ∷ 0x01 ∷ 0x00 ∷ 0x4c ∷ 0x21 ∷ 0x80 ∷ []

-- The last six bytes: the NMI, reset and IRQ vectors.
abbrev vectors : List ℕ
vectors = 0x21 ∷ 0x80 ∷ 0x00 ∷ 0x80 ∷ 0x21 ∷ 0x80 ∷ []

abbrev pub progmem_size : ℕ
progmem_size = 32768

-- The array; all between the program and the vectors is 0.
unfoldable pub progmem : ℕ → ℕ
progmem i = if ltb i 32762 then get_or program i 0 else get_or vectors (i - 32762) 0

-- `PROGMEM[i]`, undefined past the end.
unfoldable pub progmem_get : ℕ → Option ℕ
progmem_get i = if ltb i progmem_size then some (progmem i) else none

abbrev All {ℓ} : (ℕ → Type ℓ) → List ℕ → Type ℓ
All P [] = Unit
All P (x ∷ xs) = P x × All P xs

get_or-lt : (l : List ℕ) (i : ℕ) → All (λ x. x < 256) l → get_or l i 0 < 256
get_or-lt [] i h = omega arith
get_or-lt (x ∷ l) zero h = h.0
get_or-lt (x ∷ l) (suc i) h = get_or-lt l i h.1

-- The ROM holds bytes.
pub progmem-lt : (i : ℕ) → progmem i < 256
unfolding progmem
progmem-lt i = elim (Bool-cases (ltb i 32762)) [
  | inl low ↦ rw low (get_or-lt program i (omega arith))
  | inr high ↦ rw high (get_or-lt vectors (i - 32762) (omega arith))
]
