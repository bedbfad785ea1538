-- ===== src/Switch/Shift.antt =====
-- The shifts and rotates of src/olc6502.c's `switch (opcode)`: the operand is fetched here, and
-- the block behind the switch does the work. The four instructions have the same cases.
use m.Base.{ℕ, false}
use m.Cpu.{M, ◌>>=◌, ◌>>◌, get_a, get_x, get_addr, set_addr, set_fetched, set_oops, read}
use m.Cpu.Address.{get_zp_address, get_absolute_address, get_absolute_address_x, zp_address_plus}

pub data ShiftOp : Type 0 where
  asl lsr rol ror : ShiftOp

pub data ShiftMode : Type 0 where
  accumulator zp zpx abs absx : ShiftMode

unfoldable pub shift_opcode : ShiftOp → ShiftMode → ℕ
shift_opcode asl accumulator = 0x0A
shift_opcode asl zp = 0x06
shift_opcode asl zpx = 0x16
shift_opcode asl abs = 0x0E
shift_opcode asl absx = 0x1E
shift_opcode lsr accumulator = 0x4A
shift_opcode lsr zp = 0x46
shift_opcode lsr zpx = 0x56
shift_opcode lsr abs = 0x4E
shift_opcode lsr absx = 0x5E
shift_opcode rol accumulator = 0x2A
shift_opcode rol zp = 0x26
shift_opcode rol zpx = 0x36
shift_opcode rol abs = 0x2E
shift_opcode rol absx = 0x3E
shift_opcode ror accumulator = 0x6A
shift_opcode ror zp = 0x66
shift_opcode ror zpx = 0x76
shift_opcode ror abs = 0x6E
shift_opcode ror absx = 0x7E

unfoldable pub shift_operand : ShiftMode → M (Unit {0})
shift_operand accumulator = do set_fetched (← get_a)
shift_operand zp = do set_addr (← get_zp_address); set_fetched (← read (← get_addr))
shift_operand zpx = do set_addr (← zp_address_plus get_x); set_fetched (← read (← get_addr))
shift_operand abs = do set_addr (← get_absolute_address); set_fetched (← read (← get_addr))
shift_operand absx = do
  set_addr (← get_absolute_address_x)
  set_fetched (← read (← get_addr))
  set_oops false
