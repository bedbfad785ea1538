-- ===== src/Blocks/Operand.antt =====
-- The `switch (bbb)` by which ADC, SBC, CMP, CPX and CPY of src/olc6502.c find their operand. The
-- two places have the same text.
use m.Base.{ℕ, zero, suc, ◌==◌, if◌then◌else◌}
use m.Cpu.{M, ◌>>=◌, ◌>>◌, skip, get_x, get_addr, set_addr, set_fetched, spend, read}
use m.Cpu.Address.{
  fetch_operand, get_zp_address, get_absolute_address, get_absolute_address_x,
  get_absolute_address_y, get_indexed_indirect_x, get_indexed_indirect_y, zp_address_plus,
  spend_oops,
}

unfoldable pub operand_address : ℕ → M (Unit {0})
operand_address zero = do set_addr (← get_indexed_indirect_x); spend 2
operand_address (suc zero) = do set_addr (← get_zp_address); spend 1
operand_address (suc (suc zero)) = do set_fetched (← fetch_operand)
operand_address (suc (suc (suc zero))) = do set_addr (← get_absolute_address); spend 1
operand_address (suc (suc (suc (suc zero)))) = do set_addr (← get_indexed_indirect_y); spend_oops
operand_address (suc (suc (suc (suc (suc zero))))) = do set_addr (← zp_address_plus get_x); spend 1
operand_address (suc (suc (suc (suc (suc (suc zero)))))) = do
  set_addr (← get_absolute_address_y)
  spend_oops
operand_address (suc (suc (suc (suc (suc (suc (suc zero))))))) = do
  set_addr (← get_absolute_address_x)
  spend_oops
operand_address (suc (suc (suc (suc (suc (suc (suc (suc _)))))))) = skip

-- `if (bbb != 0b010) fetched = bus_read_byte(cpu->CE, addr);`
unfoldable pub operand_fetch : ℕ → M (Unit {0})
operand_fetch bbb = if bbb == 2 then skip else do set_fetched (← read (← get_addr))
