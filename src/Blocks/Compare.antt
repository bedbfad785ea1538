-- ===== src/Blocks/Compare.antt =====
-- CMP, CPX and CPY of src/olc6502.c.
use m.Base.{ℕ, ◌+◌, ◌-◌, Bool, ◌&&◌, ◌||◌, not, ◌==◌, ltb, leb, if◌then◌else◌, to_bit, bit_and, u16}
use m.Cpu.{
  M, ◌>>=◌, ◌>>◌, skip, get_a, get_x, get_y, get_fetched, get_temp, set_temp, set_flag, flag_c,
  update_flags_from_register,
}
use m.Blocks.Operand.{operand_address, operand_fetch}

unfoldable pub is_compare : ℕ → ℕ → ℕ → Bool
is_compare aaa bbb cc =
    ((cc == 1) && (aaa == 6)) || ((cc == 0) && ltb 5 aaa && ltb bbb 4 && not (bbb == 2))

-- The flags of the difference of `temp` and `fetched`.
unfoldable pub compare_flags : M (Unit {0})
compare_flags = do
  temp ← get_temp
  fetched ← get_fetched
  let value = u16 (temp + 65536 - fetched)
  set_flag flag_c (to_bit (leb fetched temp))
  update_flags_from_register (bit_and value 0xff)

unfoldable pub compare_block : ℕ → ℕ → ℕ → M (Unit {0})
unfolding is_compare compare_flags
compare_block aaa bbb cc =
    if is_compare aaa bbb cc
    then (do
      operand_address bbb
      a ← get_a
      x ← get_x
      y ← get_y
      set_temp (if cc == 1 then a else if aaa == 7 then x else y)
      operand_fetch bbb
      compare_flags)
    else skip
