-- ===== src/SelfTest.antt =====
-- src/test-ti74ls138.c: the assertions on the memory and the bus, up to the first that fails.
use m.Base.{ℕ, ◌+◌, ◌≡◌, refl, Bool, Option, none, some, ◌==◌, if◌then◌else◌}
use m.Memory.{Memory, memory_init, memory_get, memory_set}
use m.Decoder.{
  Decoder, m74ls138_init, decode_address, bus_write_byte, bus_read_byte, bus_write_word,
  bus_read_word,
}

-- How `main` ends: with 0, with -1, in an assertion, given by its line, or outside an array.
pub data Verdict : Type 0 where
  passed : Verdict
  not_initialized : Verdict
  failed : ℕ → Verdict
  outside : Verdict

abbrev pub assert : ℕ → Bool → Verdict → Verdict
assert line holds next = if holds then next else failed line

abbrev pub then_on : Option Decoder → (Decoder → Verdict) → Verdict
then_on none next = outside
then_on (some ce) next = next ce

abbrev pub with_memory : Decoder → Option Memory → Option Decoder
with_memory ce none = none
with_memory ce (some mem) = some (record ce { mem = mem })

-- `memory_set(ce.ptr_mem, address, value)`
abbrev pub set_at : Decoder → ℕ → ℕ → (Decoder → Verdict) → Verdict
set_at ce address value next = then_on (with_memory ce (memory_set ce.mem address value)) next

-- `memory_set(ce.ptr_mem, decode_address(&ce, address), value)`
abbrev pub set_decoded : Decoder → ℕ → ℕ → (Decoder → Verdict) → Verdict
set_decoded ce address value next =
    let (real, ce') = decode_address ce address in set_at ce' real value next

-- `value == expected` of a value that is read, with the decoder behind the read.
abbrev pub assert_read : ℕ → ℕ → Option (ℕ × Decoder) → (Decoder → Verdict) → Verdict
assert_read line expected none next = outside
assert_read line expected (some (value, ce)) next = assert line (value == expected) (next ce)

abbrev pub with_decoder : Decoder → Option ℕ → Option (ℕ × Decoder)
with_decoder ce none = none
with_decoder ce (some value) = some (value, ce)

abbrev pub get_at : Decoder → ℕ → Option (ℕ × Decoder)
get_at ce address = with_decoder ce (memory_get ce.mem address)

-- `memory_get(&mem, decode_address(&ce, address))`
abbrev pub get_decoded : Decoder → ℕ → Option (ℕ × Decoder)
get_decoded ce address = let (real, ce') = decode_address ce address in get_at ce' real

abbrev pub decoded : Decoder → ℕ → Decoder
decoded ce address = (decode_address ce address).1

unfoldable pub ram_assertions : Decoder → (Decoder → Verdict) → Verdict
ram_assertions ce next = set_decoded ce 0x000a 0x42 λ ce.
    assert_read 28 0x42 (get_at ce 0x000a) λ ce.
      set_at ce 0x000a (0x42 + 1)
        λ ce. assert_read 30 (0x42 + 1) (get_decoded ce (0x000a + 0x0800)) next

unfoldable pub ppu_assertions : Decoder → (Decoder → Verdict) → Verdict
ppu_assertions ce next = set_decoded ce 0x2002 0x3 λ ce.
    assert_read 36 0x3 (get_at ce (2048 + 2)) λ ce.
      set_at ce (2048 + 2) (0x3 + 1)
        λ ce. assert_read 38 (0x3 + 1) (get_decoded ce (0x2002 + 0x0008)) next

unfoldable pub bus_assertions : Decoder → Verdict
bus_assertions ce = then_on (bus_write_byte ce 0x000b 0x55) λ ce.
    assert_read 52 0x55 (bus_read_byte ce 0x000b) λ ce.
      then_on (bus_write_byte ce 0x8000 0x56) λ ce.
        assert_read 54 0x56 (bus_read_byte ce 0x8000) λ ce.
          then_on (bus_write_word ce 0x09fd 0x1234)
            λ ce. assert_read 56 0x1234 (bus_read_word ce 0x01fd) λ ce. passed

abbrev pub connected : Option Decoder → Verdict
connected none = not_initialized
connected (some ce) = ram_assertions ce λ ce.
    ppu_assertions ce
      λ ce. bus_assertions (decoded (decoded (decoded (decoded ce 0x4005) 0x4021) 0x6000) 0x8000)

abbrev pub initialized : Option ℕ × Memory → Verdict
initialized (none, mem) = not_initialized
initialized (some code, mem) =
    if code == 0 then connected (m74ls138_init (some mem)) else not_initialized

unfoldable pub main : Memory → Verdict
unfolding ram_assertions ppu_assertions bus_assertions
main mem = initialized (memory_init mem)

-- From any contents of the memory, `main` stops at the assertion on line 54: those before it hold, and
-- the byte written to the ROM at 0x8000 does not read back.
pub main-failed : (mem : Memory) → main mem ≡ failed 54
unfolding main m74ls138_init decode_address bus_write_byte bus_read_byte memory_init
    m.Progmem.progmem
main-failed mem = refl
