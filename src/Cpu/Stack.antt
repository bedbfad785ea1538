-- ===== src/Cpu/Stack.antt =====
-- The stack helpers of src/olc6502.c. The stack pointer is a byte and wraps within page 1.
use m.Base.{ℕ, ◌+◌, ◌*◌, ◌/◌, bit_and, bit_or}
use m.Cpu.{M, ◌>>=◌, ◌>>◌, pure, get_sp, set_sp, spend, read, write}

abbrev pub stack_base : ℕ
stack_base = 0x0100

unfoldable pub push_byte_to_stack : ℕ → M (Unit {0})
push_byte_to_stack value = do sp ← get_sp; write (stack_base + sp) value; set_sp (sp + 255); spend 1

unfoldable pub push_word_to_stack : ℕ → M (Unit {0})
push_word_to_stack value = do
  push_byte_to_stack (value / 256)
  push_byte_to_stack (bit_and value 0xff)

unfoldable pub pull_byte_from_stack : M ℕ
pull_byte_from_stack = do
  sp ← get_sp
  set_sp (sp + 1)
  value ← read (stack_base + (← get_sp))
  spend 1
  pure value

unfoldable pub pull_word_from_stack : M ℕ
pull_word_from_stack = do
  low ← pull_byte_from_stack
  high ← pull_byte_from_stack
  pure (bit_or (high * 256) low)
