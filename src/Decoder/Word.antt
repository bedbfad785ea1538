-- ===== src/Decoder/Word.antt =====
-- Words on the bus of src/ti74ls138.c: the second byte is taken at the next real address.
use m.Base.{
  ℕ, ◌+◌, ◌-◌, ◌*◌, ◌/◌, ◌%◌, ◌≤◌, ◌<◌, ◌≡◌, arith, ◌⊎◌, ◌↔◌, ◌≢◌, inl, inr, ltb, ltb→lt,
  if◌then◌else◌, Bool-cases, none, some,
}
use m.Base.Bits.{bit_or_low}
use m.Memory.{Memory, update, total_memory_size}
use m.Progmem.{progmem, progmem-lt}
use m.Decoder.{Decoder, bus_read_word}
use m.Decoder.Map.{real_address, line_of, byte_at, decode_address-by_range, real_address-rom}

-- The bytes of the array are bytes.
abbrev pub IsBytes : Memory → Type 0
IsBytes mem = (i : ℕ) → mem.bytes i < 256

-- The next address is in the same device and not behind a mirror's edge.
abbrev pub IsWhole : ℕ → Type 0
IsWhole a =
    ((a < 0x2000) × (a % 0x800 ≢ 0x7ff))
    ⊎ ((0x2000 ≤ a) × (a < 0x4000) × (a % 8 ≢ 7))
    ⊎ ((0x4000 ≤ a) × (a < 0x8000) × (a % 0x2000 ≢ 0x1fff))
    ⊎ ((0x8000 ≤ a) × (a < 0xffff))

-- A word read fails exactly where the byte behind the last one of an array would be read: at
-- $5FFF and $7FFF, whose real address is the last of memory, and at $FFFF, the last of the ROM.
pub bus_read_word-eq-none_iff :
    (dev : Decoder) (a : ℕ)
    → a < 65536
    → (bus_read_word dev a ≡ none) ↔ ((a ≡ 0x5fff) ⊎ (a ≡ 0x7fff) ⊎ (a ≡ 0xffff))
unfolding bus_read_word real_address
bus_read_word-eq-none_iff dev a h = ground (arith, decode_address-by_range dev a h)

real_address-next :
    (a : ℕ)
    → IsWhole a
    → a < 0x8000
    → (real_address (a + 1) ≡ real_address a + 1)
      × (real_address a + 1 < total_memory_size)
      × (a + 1 < 0x8000)
unfolding real_address
real_address-next a w h = ground arith

word_in_memory :
    (dev : Decoder) (a : ℕ)
    → IsBytes dev.mem
    → IsWhole a
    → a < 0x8000
    → bus_read_word dev a
      ≡ some (byte_at dev (a + 1) * 256 + byte_at dev a, record dev { ce = line_of a })
unfolding bus_read_word byte_at
word_in_memory dev a bytes w h = rw (decode_address-by_range dev a (omega arith)) (
    ground (
      arith,
      real_address-next a w h,
      bytes (real_address a),
      bit_or_low 8 (dev.mem.bytes (real_address a + 1)) (dev.mem.bytes (real_address a)),
    ))

pub word_in_rom :
    (dev : Decoder) (a : ℕ)
    → 0x8000 ≤ a
    → a < 0xffff
    → bus_read_word dev a
      ≡ some (byte_at dev (a + 1) * 256 + byte_at dev a, record dev { ce = line_of a })
unfolding bus_read_word byte_at
word_in_rom dev a lo hi =
    let next : a + 1 - 0x8000 ≡ a - 0x8000 + 1 = omega arith in
    rw (decode_address-by_range dev a (omega arith), real_address-rom a lo)
      (ground (
        arith,
        next,
        progmem-lt (a - 0x8000),
        bit_or_low 8 (progmem (a - 0x8000 + 1)) (progmem (a - 0x8000)),
      ))

-- Where the next address is in the same device and not behind a mirror's edge (`IsWhole`), in a memory of bytes, the word is
-- made, low byte first, of the bytes that the CPU sees at the address and at the next one.
pub bus_read_word-IsWhole :
    (dev : Decoder) (a : ℕ)
    → IsBytes dev.mem
    → IsWhole a
    → bus_read_word dev a
      ≡ some (byte_at dev (a + 1) * 256 + byte_at dev a, record dev { ce = line_of a })
bus_read_word-IsWhole dev a bytes w = elim (Bool-cases (ltb a 0x8000)) [
  | inl low ↦ word_in_memory dev a bytes w (ltb→lt _ _ low)
  | inr high ↦ word_in_rom dev a (ground arith) (ground arith)
]

-- The last address before a mirror of the RAM or of the PPU registers.
abbrev pub IsEdge : ℕ → Type 0
IsEdge a = ((a < 0x2000) × (a % 0x800 ≡ 0x7ff)) ⊎ ((0x2000 ≤ a) × (a < 0x4000) × (a % 8 ≡ 7))

-- The address at which the CPU sees the byte that the array has behind that of `a`: behind the RAM
-- it has the PPU registers, and behind these the range from $4000 on.
abbrev pub behind : ℕ → ℕ
behind a = if ltb a 0x2000 then 0x2000 else 0x4000

-- At the last address before a mirror ($07FF, $0FFF, $17FF and $1FFF in the RAM, and $2007, $200F and
-- so on up to $3FFF in the PPU registers), in a memory of bytes, the word is made of the byte that the CPU sees at that
-- address and, as high byte, of the one that it sees at $2000, the first PPU register, for the RAM, and
-- at $4000 for the PPU registers, whatever address follows on the bus. At $1FFF and $3FFF these do
-- follow; at the others the next address is a mirror of $0000 or of $2000, whose byte is not read.
pub bus_read_word-IsEdge :
    (dev : Decoder) (a : ℕ)
    → IsBytes dev.mem
    → IsEdge a
    → bus_read_word dev a
      ≡ some (byte_at dev (behind a) * 256 + byte_at dev a, record dev { ce = line_of a })
unfolding bus_read_word byte_at real_address
bus_read_word-IsEdge dev a bytes w = rw (decode_address-by_range dev a (ground arith)) (
    ground (
      arith,
      bytes (real_address a),
      bit_or_low 8 (dev.mem.bytes (real_address a + 1)) (dev.mem.bytes (real_address a)),
    ))

-- The decoder after `bus_write_word`: two bytes of the array are set.
abbrev written : Decoder → ℕ → ℕ → Decoder
written dev a v = record {
  ce = line_of a;
  mem = record {
    bytes =
        update (update dev.mem.bytes (real_address a) (v % 256)) (real_address a + 1)
          (v / 256 % 256);
  };
}
