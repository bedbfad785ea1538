-- ===== src/Blocks/Shift.antt =====
-- The shifts and rotates of src/olc6502.c.
use m.Base.{
  ℕ, zero, suc, ◌*◌, ◌/◌, ◌&&◌, not, ◌==◌, ltb, if◌then◌else◌, to_bit, to_bool, bit_and, bit_or,
}
use m.Cpu.{
  M, ◌>>=◌, ◌>>◌, skip, get_flag, get_fetched, get_temp, get_addr, set_a, set_fetched, set_temp,
  set_flag, flag_c, spend, write, update_flags_from_register,
}

-- `cpu->PS.C = (fetched & mask) != 0`
abbrev carry_from : ℕ → M (Unit {0})
carry_from mask = do set_flag flag_c (to_bit (not (bit_and (← get_fetched) mask == 0)))

-- `switch (aaa)`
unfoldable pub shift_by : ℕ → M (Unit {0})
shift_by zero = do carry_from 0x80; set_fetched ((← get_fetched) * 2)
shift_by (suc zero) = do
  set_temp (if to_bool (← get_flag flag_c) then 0x01 else 0x00)
  carry_from 0x80
  set_fetched (bit_or ((← get_fetched) * 2) (← get_temp))
shift_by (suc (suc zero)) = do carry_from 0x01; set_fetched ((← get_fetched) / 2)
shift_by (suc (suc (suc zero))) = do
  set_temp (if to_bool (← get_flag flag_c) then 0x80 else 0x00)
  carry_from 0x01
  set_fetched (bit_or ((← get_fetched) / 2) (← get_temp))
shift_by (suc (suc (suc (suc _)))) = skip

-- The result goes to the accumulator or back to `addr`.
unfoldable pub shift_result : ℕ → M (Unit {0})
shift_result bbb =
    if bbb == 2
    then (do set_a (← get_fetched); spend 1)
    else (do write (← get_addr) (← get_fetched); spend (if ltb bbb 4 then 3 else 4))

unfoldable pub shift_block : ℕ → ℕ → ℕ → M (Unit {0})
unfolding shift_by shift_result
shift_block aaa bbb cc =
    if ltb aaa 4 && (cc == 2)
    then (do shift_by aaa; update_flags_from_register (← get_fetched); shift_result bbb)
    else skip
