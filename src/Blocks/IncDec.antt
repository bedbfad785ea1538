-- ===== src/Blocks/IncDec.antt =====
-- INC and DEC of src/olc6502.c.
use m.Base.{ℕ, zero, suc, ◌+◌, ◌&&◌, not, ◌==◌, ltb, if◌then◌else◌, false}
use m.Cpu.{
  M, ◌>>=◌, ◌>>◌, skip, get_a, get_x, get_addr, get_temp, set_addr, set_temp, set_oops, spend,
  write, update_flags_from_register,
}
use m.Cpu.Address.{get_zp_address, get_absolute_address, get_absolute_address_x, zp_address_plus}

-- `switch (bbb)`, which leaves `addr` as it was at the other values.
unfoldable pub inc_dec_address : ℕ → M (Unit {0})
inc_dec_address (suc zero) = do set_addr (← get_zp_address); spend 3
inc_dec_address (suc (suc (suc zero))) = do set_addr (← get_absolute_address); spend 3
inc_dec_address (suc (suc (suc (suc (suc zero))))) = do set_addr (← zp_address_plus get_x); spend 4
inc_dec_address (suc (suc (suc (suc (suc (suc (suc zero))))))) = do
  set_addr (← get_absolute_address_x)
  spend 4
  set_oops false
inc_dec_address _ = skip

unfoldable pub inc_dec_block : ℕ → ℕ → ℕ → M (Unit {0})
inc_dec_block aaa bbb cc =
    if (cc == 2) && ltb 5 aaa && not (bbb == 2)
    then (do
      set_temp (← get_a)
      inc_dec_address bbb
      temp ← get_temp
      set_temp (if aaa == 7 then temp + 1 else temp + 255)
      update_flags_from_register (← get_temp)
      write (← get_addr) (← get_temp))
    else skip
