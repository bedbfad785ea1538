-- ===== src/Cpu/Reset.antt =====
-- `olc6502_init` and `olc6502_reset` of src/olc6502.c.
use m.Base.{ℕ, ◌-◌}
use m.Decoder.{Decoder}
use m.Cpu.{
  Cpu, M, ◌>>=◌, ◌>>◌, set_pc, set_sp, set_i_nxt, set_flag, flag_i, flag_d, spend, read_word,
}
use m.Cpu.Stack.{stack_base}

abbrev pub nmi_vector : ℕ
nmi_vector = 0xfffa

abbrev pub reset_vector : ℕ
reset_vector = 0xfffc

abbrev pub irq_vector : ℕ
irq_vector = 0xfffe

-- The processor after `olc6502_init`, which returns 0.
unfoldable pub olc6502_init : Decoder → Cpu
olc6502_init ce = record {
  a = 0;
  x = 0;
  y = 0;
  pc = reset_vector;
  sp = stack_base - 3;
  ps = 0x04;
  ce = ce;
  i_nxt = 1;
}

unfoldable pub olc6502_reset : M (Unit {0})
olc6502_reset = do
  set_pc reset_vector
  set_sp (stack_base - 3)
  set_flag flag_i 1
  set_flag flag_d 0
  spend 7
  prg_start ← read_word reset_vector
  set_pc prg_start
  set_i_nxt 1
