-- ===== src/Switch/Bitwise.antt =====
-- AND, ORA, EOR and BIT of src/olc6502.c's `switch (opcode)`. The first three have the same cases,
-- with `&=`, `|=` and `^=`.
use m.Base.{ℕ, ◌==◌, to_bit, bit_and, bit_or, bit_xor}
use m.Cpu.{
  M, ◌>>=◌, ◌>>◌, get_a, get_x, get_ps, get_fetched, get_addr, set_a, set_addr, set_fetched, set_ps,
  set_flag, flag_z, spend, read, update_flags_from_register,
}
use m.Cpu.Address.{
  fetch_operand, get_zp_address, get_absolute_address, get_absolute_address_x,
  get_absolute_address_y, get_indexed_indirect_x, get_indexed_indirect_y, zp_address_plus,
  spend_oops,
}

pub data Logic : Type 0 where
  and ora eor : Logic

pub data LogicMode : Type 0 where
  im zp zpx abs absx absy indx indy : LogicMode

unfoldable pub logic_opcode : Logic → LogicMode → ℕ
logic_opcode and im = 0x29
logic_opcode and zp = 0x25
logic_opcode and zpx = 0x35
logic_opcode and abs = 0x2D
logic_opcode and absx = 0x3D
logic_opcode and absy = 0x39
logic_opcode and indx = 0x21
logic_opcode and indy = 0x31
logic_opcode ora im = 0x09
logic_opcode ora zp = 0x05
logic_opcode ora zpx = 0x15
logic_opcode ora abs = 0x0D
logic_opcode ora absx = 0x1D
logic_opcode ora absy = 0x19
logic_opcode ora indx = 0x01
logic_opcode ora indy = 0x11
logic_opcode eor im = 0x49
logic_opcode eor zp = 0x45
logic_opcode eor zpx = 0x55
logic_opcode eor abs = 0x4D
logic_opcode eor absx = 0x5D
logic_opcode eor absy = 0x59
logic_opcode eor indx = 0x41
logic_opcode eor indy = 0x51

unfoldable pub apply : Logic → ℕ → ℕ → ℕ
apply and a v = bit_and a v
apply ora a v = bit_or a v
apply eor a v = bit_xor a v

-- `cpu->A op= v`
unfoldable pub assign_a : Logic → ℕ → M (Unit {0})
unfolding apply
assign_a op v = do set_a (apply op (← get_a) v)

abbrev pub flags_a : M (Unit {0})
flags_a = get_a >>= update_flags_from_register

unfoldable pub logic : Logic → LogicMode → M (Unit {0})
unfolding assign_a
logic op im = do assign_a op (← fetch_operand); flags_a
logic op zp = do assign_a op (← read (← get_zp_address)); spend 1; flags_a
logic op zpx = do
  set_addr (← zp_address_plus get_x)
  assign_a op (← read (← get_addr))
  spend 2
  flags_a
logic op abs = do assign_a op (← read (← get_absolute_address)); spend 1; flags_a
logic op absx = do
  set_addr (← get_absolute_address_x)
  assign_a op (← read (← get_addr))
  spend_oops
  flags_a
logic op absy = do
  set_addr (← get_absolute_address_y)
  assign_a op (← read (← get_addr))
  spend_oops
  flags_a
logic op indx = do assign_a op (← read (← get_indexed_indirect_x)); spend 2; flags_a
logic op indy = do
  set_addr (← get_indexed_indirect_y)
  assign_a op (← read (← get_addr))
  spend_oops
  flags_a

pub data Bit : Type 0 where
  bit_zp bit_abs : Bit

unfoldable pub bit_opcode : Bit → ℕ
bit_opcode bit_zp = 0x24
bit_opcode bit_abs = 0x2C

-- The four lines that follow the fetch in both cases of BIT.
unfoldable pub bit_flags : M (Unit {0})
bit_flags = do
  spend 1
  set_flag flag_z (to_bit (bit_and (← get_fetched) (← get_a) == 0))
  set_ps (bit_or (← get_ps) (bit_and (← get_fetched) 0xc0))

unfoldable pub bit : Bit → M (Unit {0})
unfolding bit_flags
bit bit_zp = do set_fetched (← read (← get_zp_address)); bit_flags
bit bit_abs = do set_fetched (← read (← get_absolute_address)); bit_flags
