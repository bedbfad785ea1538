-- ===== src/Call/Restart.antt =====
-- The reset of src/olc6502.c with the vectors of src/program.h.
use m.Base.{◌/◌, ◌%◌, ◌≡◌, refl, arith, some}
use m.Base.Int.{pos, ◌-ℤ◌}
use m.Progmem.{progmem}
use m.Decoder.{Decoder, bus_read_word, prg_rom3}
use m.Decoder.Map.{byte_at, line_of}
use m.Decoder.Word.{word_in_rom}
use m.Cpu.{
  State, ◌>>=◌, set_pc, set_sp, set_flag, set_i_nxt, spend, read_word, get_bit, put_bit, flag_i,
  flag_d,
}
use m.Cpu.Reset.{olc6502_reset, reset_vector}

reset_word :
    (dev : Decoder) → bus_read_word dev reset_vector ≡ some (0x8000, record dev { ce = prg_rom3 })
unfolding byte_at progmem line_of
reset_word dev = word_in_rom dev reset_vector (omega arith) (omega arith)

-- The state after the reset.
abbrev restarted : State → State
restarted s = record s {
  cpu = record s.cpu {
    pc = 0x8000;
    sp = 0xfd;
    ps = put_bit flag_d 0 (put_bit flag_i 1 s.cpu.ps);
    ce = record s.cpu.ce { ce = prg_rom3 };
    i_nxt = 1;
  };
  cycles = s.cycles -ℤ pos 7;
}

reset_lem : (s : State) → olc6502_reset s ≡ some (tt, restarted s)
unfolding olc6502_reset ◌>>=◌ set_pc set_sp set_flag spend read_word set_i_nxt
reset_lem s = rw (reset_word s.cpu.ce)

-- From every state the reset returns: it starts the program at the first byte of the ROM with the
-- stack pointer at 0xFD, I set (now and for the next instruction) and D clear, consumes 7 cycles,
-- and keeps A, X, Y, the flags C, Z, V and N, and the memory. The test of the reset in
-- tests/tests-olc6502 expects 0xFFFC in `pc`, which is the address of the word that is loaded.
pub olc6502_reset-returns :
    (s : State)
    → (t : State) × (olc6502_reset s ≡ some (tt, t))
      × (t.cpu.pc ≡ 0x8000)
      × (t.cpu.sp ≡ 0xfd)
      × (get_bit flag_i t.cpu.ps ≡ 1)
      × (t.cpu.i_nxt ≡ 1)
      × (get_bit flag_d t.cpu.ps ≡ 0)
      × (t.cycles ≡ s.cycles -ℤ pos 7)
      × ((t.cpu.a ≡ s.cpu.a) × (t.cpu.x ≡ s.cpu.x) × (t.cpu.y ≡ s.cpu.y))
      × ((t.cpu.ps % 4 ≡ s.cpu.ps % 4) × (t.cpu.ps / 16 ≡ s.cpu.ps / 16))
      × (t.cpu.ce.mem ≡ s.cpu.ce.mem)
olc6502_reset-returns s = (
  restarted s,
  reset_lem s,
  refl,
  refl,
  omega arith,
  refl,
  omega arith,
  refl,
  (refl, refl, refl),
  (omega arith, omega arith),
  refl,
)
