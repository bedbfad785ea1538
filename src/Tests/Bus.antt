-- ===== src/Tests/Bus.antt =====
-- The bus and the memory at concrete addresses.
use m.Base.{
  ℕ, ◌+◌, ◌*◌, ◌%◌, ◌≡◌, ◌≢◌, ◌↔◌, ◌⊎◌, ◌<◌, refl, arith, some, none, ltb, ◌&&◌, ◌==◌,
  if◌then◌else◌, u8,
}
use m.Memory.{Memory, update, memory_init, total_memory_size}
use m.Memory.Init.{memory_init-bytes}
use m.Decoder.{
  Decoder, cpu_ram, ppu, sram, prg_rom0, decode_address, bus_read_byte, bus_write_byte,
  bus_read_word,
}
use m.Decoder.Map.{
  real_address, line_of, byte_at, decode_address-by_range, bus_read_byte-total, bus_write_byte_iff,
}
use m.Decoder.Access.{read_after_write, Alias, decode_address-Alias}
use m.Decoder.Word.{bus_read_word-eq-none_iff, bus_read_word-IsWhole, bus_read_word-IsEdge}

abbrev filled : Memory
filled = record { bytes = λ i. i % 256 }

abbrev dev : Decoder
dev = record { ce = cpu_ram; mem = filled }

-- A register of the PPU, in its last mirror.
decode_address-by_range_example :
    decode_address dev 0x3fff ≡ (0x807, record { ce = ppu; mem = filled })
unfolding real_address line_of
decode_address-by_range_example = decode_address-by_range dev 0x3fff (omega arith)

bus_read_byte-total_example :
    bus_read_byte dev 0x6001 ≡ some (9, record { ce = sram; mem = filled })
unfolding real_address line_of byte_at
bus_read_byte-total_example = bus_read_byte-total dev 0x6001 (omega arith)

bus_write_byte_iff_example : (bus_write_byte dev 0xa808 1 ≢ none) ↔ (0xa808 < 0xa808)
bus_write_byte_iff_example = bus_write_byte_iff dev 0xa808 1 (omega arith)

-- A write to the mirror 0x0801 of the byte at 1.
abbrev stored : Decoder
stored = record { ce = cpu_ram; mem = record { bytes = update filled.bytes 1 0x7f } }

read_after_write_example :
    bus_read_byte stored 1
    ≡ some (
      if ltb 1 0x8000 && (real_address 0x0801 == real_address 1) then u8 0x7f else byte_at dev 1,
      record stored { ce = line_of 1 },
    )
unfolding bus_write_byte decode_address m.Decoder.ce_line m.Decoder.select
    m.Decoder.chip_select_cpu_ram m.Decoder.chip_select_prg_rom m.Memory.memory_set
read_after_write_example =
    read_after_write dev stored 0x0801 1 0x7f (omega arith) (omega arith) refl

decode_address-Alias_example :
    ((decode_address dev 0x4001).0 ≡ (decode_address dev 0x6001).0) ↔ Alias 0x4001 0x6001
decode_address-Alias_example = decode_address-Alias dev 0x4001 0x6001 (omega arith) (omega arith)

abbrev edge : ℕ
edge = 0x7fff

bus_read_word-eq-none_iff_example :
    (bus_read_word dev edge ≡ none) ↔ ((edge ≡ 0x5fff) ⊎ (edge ≡ 0x7fff) ⊎ (edge ≡ 0xffff))
bus_read_word-eq-none_iff_example = bus_read_word-eq-none_iff dev edge (omega arith)

-- The first word of the ROM.
bus_read_word-IsWhole_example :
    bus_read_word dev 0x8000
    ≡ some (byte_at dev 0x8001 * 256 + byte_at dev 0x8000, record { ce = prg_rom0; mem = filled })
unfolding line_of
bus_read_word-IsWhole_example = bus_read_word-IsWhole dev 0x8000 (λ i. omega arith) (ground arith)

-- The last byte of the RAM: the high byte is that of a PPU register, and not of its mirror at 0x0800.
bus_read_word-IsEdge_example :
    bus_read_word dev 0x07ff
    ≡ some (byte_at dev 0x2000 * 256 + byte_at dev 0x07ff, record { ce = cpu_ram; mem = filled })
unfolding line_of
bus_read_word-IsEdge_example = bus_read_word-IsEdge dev 0x07ff (λ i. omega arith) (ground arith)

memory_init-bytes_example : ((memory_init filled).0 ≡ some 0) × ((memory_init filled).1.bytes 9 ≡ 0)
memory_init-bytes_example = memory_init-bytes filled 9 (omega arith)
