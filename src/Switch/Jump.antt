-- ===== src/Switch/Jump.antt =====
-- Jumps, calls and returns of src/olc6502.c's `switch (opcode)`.
use m.Base.{ℕ, ◌+◌, ◌*◌, u16, bit_and, bit_or}
use m.Cpu.{
  M, ◌>>=◌, ◌>>◌, get_ps, get_pc, get_addr, get_fetched, get_temp, set_ps, set_pc, set_i_nxt,
  set_addr, set_fetched, set_temp, set_flag, flag_i, spend, read,
}
use m.Cpu.Address.{fetch_operand, get_absolute_address}
use m.Cpu.Stack.{push_byte_to_stack, push_word_to_stack, pull_byte_from_stack, pull_word_from_stack}
use m.Cpu.Reset.{irq_vector}

pub data JumpIns : Type 0 where
  jmp_abs jmp_ind jsr rts brk rti : JumpIns

unfoldable pub jump_opcode : JumpIns → ℕ
jump_opcode jmp_abs = 0x4C
jump_opcode jmp_ind = 0x6C
jump_opcode jsr = 0x20
jump_opcode rts = 0x60
jump_opcode brk = 0x00
jump_opcode rti = 0x40

unfoldable pub jump : JumpIns → M (Unit {0})
jump jmp_abs = do set_pc (← get_absolute_address)
jump jmp_ind = do
  set_addr (← get_absolute_address)
  addr ← get_addr
  let addr_high = bit_or (bit_and addr 0xff00) (bit_and (addr + 1) 0xff)
  high ← read addr_high
  low ← read addr
  let target = u16 (bit_or (high * 256) low)
  spend 2
  set_pc target
jump jsr = do
  set_addr (← get_absolute_address)
  push_word_to_stack (u16 ((← get_pc) + 65535))
  set_pc (← get_addr)
  spend 1
jump rts = do set_pc ((← pull_word_from_stack) + 1); spend 3
jump brk = do
  padding ← fetch_operand
  push_word_to_stack (← get_pc)
  set_temp (bit_or (← get_ps) 0x30)
  push_byte_to_stack (← get_temp)
  set_flag flag_i 1
  set_i_nxt 1
  set_pc irq_vector
  set_pc (← get_absolute_address)
jump rti = do
  set_fetched (← pull_byte_from_stack)
  set_ps (bit_or (← get_ps) (bit_and (← get_fetched) 0xcf))
  set_i_nxt (bit_and (← get_fetched) 0x04)
  spend 2
  set_addr (← pull_word_from_stack)
  set_pc (← get_addr)
