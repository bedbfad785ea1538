-- ===== src/Decoder.antt =====
-- src/ti74ls138.h and src/ti74ls138.c: the address decoder and the bus.
pub mod Map
pub mod Access
pub mod Word
use m.Base.{
  ℕ, zero, suc, ◌+◌, ◌-◌, ◌*◌, ◌/◌, ◌&&◌, Option, none, some, leb, if◌then◌else◌, u16, bit_and,
  bit_or,
}
use m.Memory.{
  Memory, memory_get, memory_set, m6502_ram_size, ppu_registers_size, expansion_rom_size,
}
use m.Progmem.{progmem_get}

-- `ce_lines_t`
pub data CeLine : Type 0 where
  cpu_ram ppu expansion sram prg_rom0 prg_rom1 prg_rom2 prg_rom3 : CeLine

-- `m74ls138_t`: the selected line, and the memory that `ptr_mem` points to.
pub record Decoder : Type 0 where
  pub ce : CeLine
  pub mem : Memory

-- Both pointers are valid; with a null pointer the code returns -1.
unfoldable pub m74ls138_init : Option Memory → Option Decoder
m74ls138_init none = none
m74ls138_init (some mem) = some (record { ce = cpu_ram; mem = mem })

abbrev pub apu_register_start : ℕ
apu_register_start = 0x4000

abbrev pub apu_register_end : ℕ
apu_register_end = 0x401f

abbrev pub ppu_register_start : ℕ
ppu_register_start = 0x2000

abbrev pub sram_start : ℕ
sram_start = 0x6000

abbrev pub prg_rom_start : ℕ
prg_rom_start = 0x8000

-- `(uint16_t)(a - b)` for a `b` below 2 ^ 16.
abbrev pub sub16 : ℕ → ℕ → ℕ
sub16 a b = u16 (a + 65536 - b)

unfoldable pub chip_select_cpu_ram : ℕ → ℕ
chip_select_cpu_ram virtual_address = bit_and virtual_address 0x07ff

unfoldable pub chip_select_ppu : ℕ → ℕ
chip_select_ppu virtual_address = sub16 (bit_and virtual_address 0x2007) ppu_register_start

unfoldable pub chip_select_apu : ℕ → ℕ
chip_select_apu virtual_address = sub16 virtual_address apu_register_start

unfoldable pub chip_select_expansion_rom : ℕ → ℕ
unfolding chip_select_apu
chip_select_expansion_rom virtual_address =
    if leb apu_register_start virtual_address && leb virtual_address apu_register_end
    then chip_select_apu virtual_address
    else sub16 virtual_address apu_register_start

unfoldable pub chip_select_sram : ℕ → ℕ
chip_select_sram virtual_address = sub16 virtual_address sram_start

unfoldable pub chip_select_prg_rom : ℕ → ℕ
chip_select_prg_rom virtual_address = sub16 virtual_address prg_rom_start

-- `(ce_lines_t)address_bits` for three bits.
unfoldable pub ce_line : ℕ → CeLine
ce_line zero = cpu_ram
ce_line (suc zero) = ppu
ce_line (suc (suc zero)) = expansion
ce_line (suc (suc (suc zero))) = sram
ce_line (suc (suc (suc (suc zero)))) = prg_rom0
ce_line (suc (suc (suc (suc (suc zero))))) = prg_rom1
ce_line (suc (suc (suc (suc (suc (suc zero)))))) = prg_rom2
ce_line (suc (suc (suc (suc (suc (suc (suc _))))))) = prg_rom3

-- The `switch` of `decode_address`.
unfoldable pub select : CeLine → ℕ → ℕ
unfolding chip_select_cpu_ram chip_select_ppu chip_select_expansion_rom chip_select_sram
    chip_select_prg_rom
select cpu_ram a = chip_select_cpu_ram a
select ppu a = u16 (chip_select_ppu a + m6502_ram_size)
select expansion a = u16 (chip_select_expansion_rom a + m6502_ram_size + ppu_registers_size)
select sram a = u16 (chip_select_sram a + m6502_ram_size + ppu_registers_size + expansion_rom_size)
select prg_rom0 a = chip_select_prg_rom a
select prg_rom1 a = chip_select_prg_rom a
select prg_rom2 a = chip_select_prg_rom a
select prg_rom3 a = chip_select_prg_rom a

-- The real address, and the decoder with its line set.
unfoldable pub decode_address : Decoder → ℕ → ℕ × Decoder
unfolding ce_line select
decode_address dev emulated_address =
    let ce = ce_line (bit_and (emulated_address / 8192) 0x07) in
    (select ce emulated_address, record dev { ce = ce })

abbrev with_mem : Decoder → Option Memory → Option Decoder
with_mem dev none = none
with_mem dev (some mem) = some (record dev { mem = mem })

unfoldable pub bus_write_byte : Decoder → ℕ → ℕ → Option Decoder
unfolding memory_set
bus_write_byte dev address value =
    let (write_addr, dev') = decode_address dev address in
    with_mem dev' (memory_set dev'.mem write_addr value)

abbrev with_value : Decoder → Option ℕ → Option (ℕ × Decoder)
with_value dev none = none
with_value dev (some v) = some (v, dev)

unfoldable pub bus_read_byte : Decoder → ℕ → Option (ℕ × Decoder)
unfolding memory_get progmem_get
bus_read_byte dev address =
    let (read_addr, dev') = decode_address dev address in
    with_value dev'
      (if leb 0x8000 address then progmem_get read_addr else memory_get dev'.mem read_addr)

abbrev set_both : Option Memory → ℕ → ℕ → Option Memory
set_both none address value = none
set_both (some mem) address value = memory_set mem address value

unfoldable pub bus_write_word : Decoder → ℕ → ℕ → Option Decoder
unfolding memory_set
bus_write_word dev address value =
    let (write_addr, dev') = decode_address dev address in
    with_mem dev' (
      set_both (memory_set dev'.mem write_addr (bit_and value 0xff)) (u16 (write_addr + 1))
        (bit_and (value / 256) 0xff))

-- `(high_byte << 8) | low_byte`, read in the order low, high.
abbrev combine : Option ℕ → Option ℕ → Option ℕ
combine none high_byte = none
combine (some low) none = none
combine (some low) (some high) = some (bit_or (high * 256) low)

unfoldable pub bus_read_word : Decoder → ℕ → Option (ℕ × Decoder)
unfolding memory_get progmem_get
bus_read_word dev address =
    let (read_addr, dev') = decode_address dev address in
    with_value dev' (
      if leb 0x8000 address
      then combine (progmem_get read_addr) (progmem_get (read_addr + 1))
      else combine (memory_get dev'.mem read_addr) (memory_get dev'.mem (u16 (read_addr + 1))))
