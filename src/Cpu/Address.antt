-- ===== src/Cpu/Address.antt =====
-- The fetches and addressing modes of src/olc6502.c.
use m.Base.{ℕ, ◌+◌, false, u16, bit_and, if◌then◌else◌}
use m.Cpu.{
  M, ◌>>=◌, ◌>>◌, pure, get_pc, get_x, get_y, get_oops, set_pc, set_oops, spend, read, read_word,
  page_boundary_crossed,
}

unfoldable pub fetch_operand : M ℕ
fetch_operand = do spend 1; pc ← get_pc; set_pc (pc + 1); read pc

unfoldable pub get_zp_address : M ℕ
get_zp_address = do pc ← get_pc; set_pc (pc + 1); zp_address ← read pc; spend 1; pure zp_address

unfoldable pub get_absolute_address : M ℕ
get_absolute_address = do
  abs_address ← read_word (← get_pc)
  set_pc ((← get_pc) + 2)
  spend 2
  pure abs_address

unfoldable pub get_absolute_address_x : M ℕ
get_absolute_address_x = do
  abs_address ← read_word (← get_pc)
  x ← get_x
  let final_address = u16 (abs_address + x)
  set_pc ((← get_pc) + 2)
  spend 2
  set_oops (← page_boundary_crossed abs_address final_address)
  pure final_address

unfoldable pub get_absolute_address_y : M ℕ
get_absolute_address_y = do
  abs_address ← read_word (← get_pc)
  y ← get_y
  let final_address = u16 (abs_address + y)
  set_pc ((← get_pc) + 2)
  spend 2
  set_oops (← page_boundary_crossed abs_address final_address)
  pure final_address

unfoldable pub get_indexed_indirect_x : M ℕ
get_indexed_indirect_x = do arg ← get_zp_address; x ← get_x; read_word (arg + x)

unfoldable pub get_indexed_indirect_y : M ℕ
get_indexed_indirect_y = do
  arg ← get_zp_address
  base_address ← read_word arg
  y ← get_y
  let final_address = u16 (base_address + y)
  spend 2
  set_oops (← page_boundary_crossed base_address final_address)
  pure final_address

-- `(get_zp_address(cpu, &cycles) + cpu->X) & 0xFF`, the zero page indexed without leaving it.
unfoldable pub zp_address_plus : M ℕ → M ℕ
zp_address_plus index = do
  zp_address ← get_zp_address
  i ← index
  pure (bit_and (zp_address + i) 0xff)

-- `cycles -= oops_cycle ? 2 : 1; oops_cycle = false;`
unfoldable pub spend_oops : M (Unit {0})
spend_oops = do oops ← get_oops; spend (if oops then 2 else 1); set_oops false
