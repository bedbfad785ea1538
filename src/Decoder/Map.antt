-- ===== src/Decoder/Map.antt =====
-- The address map that `decode_address` of src/ti74ls138.c implements, stated by ranges.
use m.Base.{
  ℕ, ◌+◌, ◌-◌, ◌/◌, ◌%◌, ◌≤◌, ◌<◌, ◌≡◌, arith, ltb, leb, if◌then◌else◌, none, some, ◌∙◌, bit_and,
  ◌≢◌, ◌↔◌,
}
use m.Base.Bits.{bit_and_7, bit_and_7ff, bit_and_2007}
use m.Memory.{total_memory_size}
use m.Progmem.{progmem}
use m.Decoder.{
  CeLine, cpu_ram, ppu, expansion, sram, prg_rom0, prg_rom1, prg_rom2, prg_rom3, Decoder, ce_line,
  select, decode_address, bus_read_byte, bus_write_byte,
}

-- Where an address of the CPU lies in the memory array, or in the ROM from $8000 on.
unfoldable pub real_address : ℕ → ℕ
real_address a =
    if ltb a 0x2000
    then a % 0x800
    else if ltb a 0x4000
    then 0x800 + a % 8
    else if ltb a 0x6000
    then 0x808 + (a - 0x4000)
    else if ltb a 0x8000
    then 0x808 + (a - 0x6000)
    else a - 0x8000

-- The device that answers: one for each 8 KB.
unfoldable pub line_of : ℕ → CeLine
line_of a =
    if ltb a 0x2000
    then cpu_ram
    else if ltb a 0x4000
    then ppu
    else if ltb a 0x6000
    then expansion
    else if ltb a 0x8000
    then sram
    else if ltb a 0xa000
    then prg_rom0
    else if ltb a 0xc000
    then prg_rom1
    else if ltb a 0xe000
    then prg_rom2
    else prg_rom3

ce_line-by_range : (a : ℕ) → a < 65536 → ce_line (a / 8192) ≡ line_of a
unfolding ce_line line_of
ce_line-by_range a h = ground arith

select-by_range : (a : ℕ) → a < 65536 → select (line_of a) a ≡ real_address a
unfolding select line_of real_address
select-by_range a h = ground (arith, bit_and_7ff a, bit_and_2007 a)

-- For every 16-bit address the decoder's bit operations give the address map: the real address
-- and the chip-enable line are those of the range that the address lies in, built without the expansion
-- ROM. So $6000 is 2056 and $8000 is 0, the index in the ROM's table; the comments in
-- src/test-ti74ls138.c say 10248 and 18440.
pub decode_address-by_range :
    (dev : Decoder) (a : ℕ)
    → a < 65536
    → decode_address dev a ≡ (real_address a, record dev { ce = line_of a })
unfolding decode_address
decode_address-by_range dev a h =
    let masked : bit_and (a / 8192) 7 ≡ a / 8192 = bit_and_7 (a / 8192) ∙ omega arith in
    rw (masked, ce_line-by_range a h) (rw (select-by_range a h))

-- What the CPU sees at an address: a byte of the ROM from $8000 on, and else of the memory array.
unfoldable pub byte_at : Decoder → ℕ → ℕ
byte_at dev a = if leb 0x8000 a then progmem (a - 0x8000) else dev.mem.bytes (real_address a)

-- An access below $8000 stays inside the array.
pub real_address-in_range : (a : ℕ) → a < 0x8000 → real_address a < total_memory_size
unfolding real_address
real_address-in_range a h = ground arith

pub real_address-rom : (a : ℕ) → 0x8000 ≤ a → real_address a ≡ a - 0x8000
unfolding real_address
real_address-rom a h = ground arith

-- A byte can be read at every 16-bit address: the read never leaves the arrays, returns the byte
-- of the address map, and changes nothing but the chip-enable line.
pub bus_read_byte-total :
    (dev : Decoder) (a : ℕ)
    → a < 65536
    → bus_read_byte dev a ≡ some (byte_at dev a, record dev { ce = line_of a })
unfolding bus_read_byte byte_at
bus_read_byte-total dev a h =
    rw (decode_address-by_range dev a h)
      (ground (arith, real_address-in_range a, real_address-rom a))

-- A write succeeds exactly below $A808: at or above it, the write leaves the array.
pub bus_write_byte_iff :
    (dev : Decoder) (a v : ℕ) → a < 65536 → (bus_write_byte dev a v ≢ none) ↔ (a < 0xa808)
unfolding bus_write_byte real_address
bus_write_byte_iff dev a v h = ground (arith, decode_address-by_range dev a h)
