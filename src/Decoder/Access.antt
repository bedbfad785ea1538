-- ===== src/Decoder/Access.antt =====
-- Reads after writes on the bus of src/ti74ls138.c, and which addresses share a byte.
use m.Base.{ℕ, ◌%◌, ◌≤◌, ◌<◌, ◌≡◌, arith, ltb, ◌==◌, if◌then◌else◌, ◌⊎◌, ◌↔◌, ◌&&◌, some, u8}
use m.Memory.{total_memory_size, update}
use m.Decoder.{Decoder, decode_address, bus_read_byte, bus_write_byte}
use m.Decoder.Map.{real_address, line_of, byte_at, decode_address-by_range, bus_read_byte-total}

-- A write below $A808 changes the one byte of the array at the real address.
pub bus_write_byte_lem :
    (dev : Decoder) (a v : ℕ)
    → a < 65536
    → real_address a < total_memory_size
    → bus_write_byte dev a v
      ≡ some (record {
        ce = line_of a;
        mem = record { bytes = update dev.mem.bytes (real_address a) v };
      })
unfolding bus_write_byte
bus_write_byte_lem dev a v h p = rw (decode_address-by_range dev a h) (ground arith)

write_in_range :
    (dev dev' : Decoder) (a v : ℕ)
    → a < 65536
    → bus_write_byte dev a v ≡ some dev'
    → real_address a < total_memory_size
unfolding bus_write_byte
write_in_range dev dev' a v h p = ground (arith, decode_address-by_range dev a h)

byte_at-write :
    (dev dev' : Decoder) (a b v : ℕ)
    → a < 65536
    → bus_write_byte dev a v ≡ some dev'
    → byte_at dev' b
      ≡ (if ltb b 0x8000 && (real_address a == real_address b) then u8 v else byte_at dev b)
unfolding byte_at
byte_at-write dev dev' a b v h p =
    ground (arith, bus_write_byte_lem dev a v h (write_in_range dev dev' a v h p))

-- After a write that succeeds, a read gives the byte written if its address is below $8000 and
-- has the same real address, and otherwise what the read gave before the write.
pub read_after_write :
    (dev dev' : Decoder) (a b v : ℕ)
    → a < 65536
    → b < 65536
    → bus_write_byte dev a v ≡ some dev'
    → bus_read_byte dev' b
      ≡ some (
        if ltb b 0x8000 && (real_address a == real_address b) then u8 v else byte_at dev b,
        record dev' { ce = line_of b },
      )
read_after_write dev dev' a b v h k p =
    ground (arith, bus_read_byte-total dev' b k, byte_at-write dev dev' a b v h p)

-- Two addresses below $8000 name the same byte of the array: mirrors of the RAM every 2 KB, of
-- the PPU registers every 8 bytes, and the expansion range laid over the SRAM.
abbrev pub Alias : ℕ → ℕ → Type 0
Alias a b =
    ((a < 0x2000) × (b < 0x2000) × (a % 0x800 ≡ b % 0x800))
    ⊎ ((0x2000 ≤ a) × (a < 0x4000) × (0x2000 ≤ b) × (b < 0x4000) × (a % 8 ≡ b % 8))
    ⊎ ((0x4000 ≤ a) × (0x4000 ≤ b) × (a % 0x2000 ≡ b % 0x2000))

real_address-Alias :
    (a b : ℕ) → a < 0x8000 → b < 0x8000 → (real_address a ≡ real_address b) ↔ Alias a b
unfolding real_address
real_address-Alias a b h k = ground arith

-- Below $8000 the decoder gives two addresses the same hardware address exactly when they are
-- aliases.
pub decode_address-Alias :
    (dev : Decoder) (a b : ℕ)
    → a < 0x8000
    → b < 0x8000
    → ((decode_address dev a).0 ≡ (decode_address dev b).0) ↔ Alias a b
decode_address-Alias dev a b h k =
    rw (decode_address-by_range dev a (omega arith), decode_address-by_range dev b (omega arith))
      (real_address-Alias a b h k)
