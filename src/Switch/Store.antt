-- ===== src/Switch/Store.antt =====
-- The stores of src/olc6502.c's `switch (opcode)`, with their opcodes.
use m.Base.{ℕ, false}
use m.Cpu.{M, ◌>>=◌, ◌>>◌, get_a, get_x, get_y, get_addr, set_addr, set_oops, spend, write}
use m.Cpu.Address.{
  get_zp_address, get_absolute_address, get_absolute_address_x, get_absolute_address_y,
  get_indexed_indirect_x, get_indexed_indirect_y, zp_address_plus,
}

pub data StoreIns : Type 0 where
  sta_zp sta_zpx sta_abs sta_absx sta_absy sta_indx sta_indy : StoreIns
  stx_zp stx_zpy stx_abs : StoreIns
  sty_zp sty_zpx sty_abs : StoreIns

unfoldable pub store_opcode : StoreIns → ℕ
store_opcode sta_zp = 0x85
store_opcode sta_zpx = 0x95
store_opcode sta_abs = 0x8D
store_opcode sta_absx = 0x9D
store_opcode sta_absy = 0x99
store_opcode sta_indx = 0x81
store_opcode sta_indy = 0x91
store_opcode stx_zp = 0x86
store_opcode stx_zpy = 0x96
store_opcode stx_abs = 0x8E
store_opcode sty_zp = 0x84
store_opcode sty_zpx = 0x94
store_opcode sty_abs = 0x8C

-- `bus_write_byte(cpu->CE, addr, r)`
abbrev pub write_to_addr : M ℕ → M (Unit {0})
write_to_addr reg = do r ← reg; addr ← get_addr; write addr r

unfoldable pub store : StoreIns → M (Unit {0})
store sta_zp = do write (← get_zp_address) (← get_a); spend 1
store sta_zpx = do set_addr (← zp_address_plus get_x); write_to_addr get_a; spend 2
store sta_abs = do set_addr (← get_absolute_address); write_to_addr get_a; spend 1
store sta_absx = do
  set_addr (← get_absolute_address_x)
  write_to_addr get_a
  spend 2
  set_oops false
store sta_absy = do
  set_addr (← get_absolute_address_y)
  write_to_addr get_a
  spend 2
  set_oops false
store sta_indx = do set_addr (← get_indexed_indirect_x); write_to_addr get_a; spend 2
store sta_indy = do
  set_addr (← get_indexed_indirect_y)
  write_to_addr get_a
  spend 2
  set_oops false
store stx_zp = do write (← get_zp_address) (← get_x); spend 1
store stx_zpy = do set_addr (← zp_address_plus get_y); write_to_addr get_x; spend 2
store stx_abs = do set_addr (← get_absolute_address); write_to_addr get_x; spend 1
store sty_zp = do write (← get_zp_address) (← get_y); spend 1
store sty_zpx = do set_addr (← zp_address_plus get_x); write_to_addr get_y; spend 2
store sty_abs = do set_addr (← get_absolute_address); write_to_addr get_y; spend 1
