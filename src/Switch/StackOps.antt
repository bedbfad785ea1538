-- ===== src/Switch/StackOps.antt =====
-- The stack instructions and NOP of src/olc6502.c's `switch (opcode)`.
use m.Base.{ℕ, ◌+◌, ◌==◌, if◌then◌else◌, bit_and, bit_or, bit_xor}
use m.Cpu.{
  M, ◌>>=◌, ◌>>◌, pure, skip, get_a, get_x, get_sp, get_ps, get_fetched, get_temp, set_a, set_x,
  set_sp, set_ps, set_i_nxt, set_fetched, set_temp, spend, read, write, update_flags_from_register,
}
use m.Cpu.Stack.{stack_base}

pub data StackOp : Type 0 where
  pha pla php plp txs tsx nop : StackOp

unfoldable pub stack_opcode : StackOp → ℕ
stack_opcode pha = 0x48
stack_opcode pla = 0x68
stack_opcode php = 0x08
stack_opcode plp = 0x28
stack_opcode txs = 0x9A
stack_opcode tsx = 0xBA
stack_opcode nop = 0xEA

-- `STACK_BASE + cpu->SP`
unfoldable pub stack_address : M ℕ
stack_address = do sp ← get_sp; pure (stack_base + sp)

unfoldable pub stack_op : StackOp → M (Unit {0})
stack_op pha = do write (← stack_address) (← get_a); set_sp ((← get_sp) + 255); spend 2
stack_op pla = do
  set_sp ((← get_sp) + 1)
  set_a (← read (← stack_address))
  update_flags_from_register (← get_a)
  spend 3
stack_op php = do
  write (← stack_address) (bit_or (← get_ps) 0x30)
  set_sp ((← get_sp) + 255)
  spend 2
stack_op plp = do
  set_sp ((← get_sp) + 1)
  set_fetched (← get_ps)
  set_temp (bit_and (← read (← stack_address)) 0xcf)
  temp ← get_temp
  fetched ← get_fetched
  if bit_xor (bit_and temp 0x04) (bit_and fetched 0x04) == 0
      then skip
      else set_i_nxt (bit_and temp 0x04)
  set_ps (bit_or (← get_ps) (bit_and temp 0xfb))
  spend 3
stack_op txs = do write (← stack_address) (← get_x); spend 1
stack_op tsx = do set_x (← read (← stack_address)); update_flags_from_register (← get_x); spend 1
stack_op nop = spend 1
