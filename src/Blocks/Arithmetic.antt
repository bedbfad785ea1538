-- ===== src/Blocks/Arithmetic.antt =====
-- ADC and SBC of src/olc6502.c.
use m.Base.{
  ℕ, ◌+◌, ◌-◌, ◌&&◌, ◌||◌, not, ◌==◌, ltb, if◌then◌else◌, to_bit, bit_and, bit_xor, u8, u16,
}
use m.Cpu.{
  M, ◌>>=◌, ◌>>◌, skip, get_a, get_fetched, get_flag, set_a, set_flag, flag_c, flag_v,
  update_flags_from_register,
}
use m.Blocks.Operand.{operand_address, operand_fetch}

-- `value`: the operand, or for SBC its two's complement in 16 bits.
unfoldable pub addend : ℕ → ℕ → ℕ
addend aaa fetched = if aaa == 7 then u16 (65536 - fetched) else u16 fetched

-- The sum and its flags.
unfoldable pub add_to_a : ℕ → M (Unit {0})
add_to_a value = do
  a ← get_a
  c ← get_flag flag_c
  let sum = u16 (a + value + c)
  set_flag flag_v (to_bit (not (bit_and (bit_and (bit_xor sum a) (bit_xor sum value)) 0x0080 == 0)))
  set_flag flag_c (to_bit (ltb 0xff sum))
  set_a (u8 sum)
  update_flags_from_register (← get_a)

unfoldable pub arithmetic_block : ℕ → ℕ → ℕ → M (Unit {0})
arithmetic_block aaa bbb cc =
    if ((aaa == 3) || (aaa == 7)) && (cc == 1)
    then (do
      operand_address bbb
      operand_fetch bbb
      fetched ← get_fetched
      add_to_a (addend aaa fetched))
    else skip
