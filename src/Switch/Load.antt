-- ===== src/Switch/Load.antt =====
-- The loads of src/olc6502.c's `switch (opcode)`, with their opcodes.
use m.Base.{ℕ}
use m.Cpu.{
  M, ◌>>=◌, ◌>>◌, get_a, get_x, get_y, get_addr, set_a, set_x, set_y, set_addr, spend, read,
  update_flags_from_register,
}
use m.Cpu.Address.{
  fetch_operand, get_zp_address, get_absolute_address, get_absolute_address_x,
  get_absolute_address_y, get_indexed_indirect_x, get_indexed_indirect_y, zp_address_plus,
  spend_oops,
}

pub data LoadIns : Type 0 where
  lda_im lda_zp lda_zpx lda_abs lda_absx lda_absy lda_indx lda_indy : LoadIns
  ldx_im ldx_zp ldx_zpy ldx_abs ldx_absy : LoadIns
  ldy_im ldy_zp ldy_zpx ldy_abs ldy_absx : LoadIns

unfoldable pub load_opcode : LoadIns → ℕ
load_opcode lda_im = 0xA9
load_opcode lda_zp = 0xA5
load_opcode lda_zpx = 0xB5
load_opcode lda_abs = 0xAD
load_opcode lda_absx = 0xBD
load_opcode lda_absy = 0xB9
load_opcode lda_indx = 0xA1
load_opcode lda_indy = 0xB1
load_opcode ldx_im = 0xA2
load_opcode ldx_zp = 0xA6
load_opcode ldx_zpy = 0xB6
load_opcode ldx_abs = 0xAE
load_opcode ldx_absy = 0xBE
load_opcode ldy_im = 0xA0
load_opcode ldy_zp = 0xA4
load_opcode ldy_zpx = 0xB4
load_opcode ldy_abs = 0xAC
load_opcode ldy_absx = 0xBC

abbrev pub flags_a : M (Unit {0})
flags_a = get_a >>= update_flags_from_register

abbrev pub flags_x : M (Unit {0})
flags_x = get_x >>= update_flags_from_register

abbrev pub flags_y : M (Unit {0})
flags_y = get_y >>= update_flags_from_register

unfoldable pub load : LoadIns → M (Unit {0})
load lda_im = do set_a (← fetch_operand); flags_a
load lda_zp = do set_a (← read (← get_zp_address)); flags_a
load lda_zpx = do set_addr (← zp_address_plus get_x); set_a (← read (← get_addr)); spend 2; flags_a
load lda_abs = do set_a (← read (← get_absolute_address)); spend 1; flags_a
load lda_absx = do
  set_addr (← get_absolute_address_x)
  set_a (← read (← get_addr))
  spend_oops
  flags_a
load lda_absy = do
  set_addr (← get_absolute_address_y)
  set_a (← read (← get_addr))
  spend_oops
  flags_a
load lda_indx = do set_a (← read (← get_indexed_indirect_x)); spend 2; flags_a
load lda_indy = do set_a (← read (← get_indexed_indirect_y)); spend_oops; flags_a
load ldx_im = do set_x (← fetch_operand); flags_x
load ldx_zp = do set_x (← read (← get_zp_address)); spend 1; flags_x
load ldx_zpy = do set_addr (← zp_address_plus get_y); set_x (← read (← get_addr)); spend 2; flags_x
load ldx_abs = do set_x (← read (← get_absolute_address)); spend 1; flags_x
load ldx_absy = do
  set_addr (← get_absolute_address_y)
  set_x (← read (← get_addr))
  spend_oops
  flags_x
load ldy_im = do set_y (← fetch_operand); flags_y
load ldy_zp = do set_y (← read (← get_zp_address)); spend 1; flags_y
load ldy_zpx = do set_addr (← zp_address_plus get_x); set_y (← read (← get_addr)); spend 2; flags_y
load ldy_abs = do set_y (← read (← get_absolute_address)); spend 1; flags_y
load ldy_absx = do
  set_addr (← get_absolute_address_x)
  set_y (← read (← get_addr))
  spend_oops
  flags_y
