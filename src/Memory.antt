-- ===== src/Memory.antt =====
-- src/memory.h and src/memory.c: the bytes behind the bus, without the expansion ROM
-- (`NES_USE_EXPANSION_ROM` is not defined). An access outside the array is undefined in C: `none`.
pub mod Init
use m.Base.{ℕ, zero, suc, ◌+◌, Option, none, some, ltb, ◌==◌, if◌then◌else◌, u8}

abbrev pub memory_max_size : ℕ
memory_max_size = 65536

abbrev pub m6502_ram_size : ℕ
m6502_ram_size = 0x800

abbrev pub ppu_registers_size : ℕ
ppu_registers_size = 0x8

abbrev pub expansion_rom_size : ℕ
expansion_rom_size = 0x0000

abbrev pub sram_size : ℕ
sram_size = 0x2000

abbrev pub total_memory_size : ℕ
total_memory_size = m6502_ram_size + ppu_registers_size + expansion_rom_size + sram_size

-- The array by its index; only indices below `total_memory_size` are ever read.
pub record Memory : Type 0 where
  pub bytes : ℕ → ℕ

-- `f[i] = v`, with the conversion to `uint8_t`.
abbrev pub update : (ℕ → ℕ) → ℕ → ℕ → ℕ → ℕ
update f i v j = if i == j then u8 v else f j

unfoldable pub memory_get : Memory → ℕ → Option ℕ
memory_get mem address = if ltb address total_memory_size then some (mem.bytes address) else none

unfoldable pub memory_set : Memory → ℕ → ℕ → Option Memory
memory_set mem address value =
    if ltb address total_memory_size
    then some (record { bytes = update mem.bytes address value })
    else none

-- `for (i; i < TOTAL_MEMORY_SIZE; i++) data[i] = 0;` with `left` rounds to go.
unfoldable pub clear_from : ℕ → ℕ → Memory → Memory
clear_from zero i mem = mem
clear_from (suc left) i mem = clear_from left (i + 1) (record { bytes = update mem.bytes i 0 })

-- The return code and the memory; the code is -1 where the banks exceed the maximum.
unfoldable pub memory_init : Memory → Option ℕ × Memory
unfolding clear_from
memory_init mem =
    if ltb memory_max_size total_memory_size
    then (none, mem)
    else (some 0, clear_from total_memory_size 0 mem)
