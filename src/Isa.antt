-- ===== src/Isa.antt =====
-- A reference model of the 6502 of src/olc6502.c: what a program sees of the processor, and what each
-- documented instruction does with it. The variables of `olc6502_clock` and the chip-enable line are
-- forgotten.
pub mod Address
pub mod Reference
pub mod Aim
pub mod Load
pub mod Logic
pub mod Effects
pub mod Store
pub mod Plain
pub mod Operations
pub mod Sum
pub mod Compare
pub mod Count
pub mod Branch
pub mod Control
pub mod Shift
pub mod Bit
pub mod Jump
pub mod Encoding
pub mod Exec
pub mod Refines
pub mod Blind
use m.Base.{ℕ, ◌+◌, ◌*◌, ◌%◌}
use m.Base.Int.{ℤ, pos, ◌-ℤ◌}
use m.Memory.{Memory, update}
use m.Decoder.{cpu_ram}
use m.Decoder.Map.{byte_at, real_address}
use m.Cpu.{State}
use m.Alu.Flags.{zn}

-- The registers, the delayed interrupt flag, the memory, and the cycles that are left.
pub record Visible : Type 0 where
  pub a : ℕ
  pub x : ℕ
  pub y : ℕ
  pub sp : ℕ
  pub ps : ℕ
  pub pc : ℕ
  pub i_nxt : ℕ
  pub mem : Memory
  pub cycles : ℤ

abbrev pub visible : State → Visible
visible s = record {
  a = s.cpu.a;
  x = s.cpu.x;
  y = s.cpu.y;
  sp = s.cpu.sp;
  ps = s.cpu.ps;
  pc = s.cpu.pc;
  i_nxt = s.cpu.i_nxt;
  mem = s.cpu.ce.mem;
  cycles = s.cycles;
}

-- The byte and the little-endian word at an address.
unfoldable pub peek : Visible → ℕ → ℕ
unfolding byte_at
peek v a = byte_at (record { ce = cpu_ram; mem = v.mem }) a

abbrev pub peek_word : Visible → ℕ → ℕ
peek_word v a = peek v (a + 1) * 256 + peek v a

-- A byte is stored.
abbrev pub poke : ℕ → ℕ → Visible → Visible
poke a n v = record v { mem = record { bytes = update v.mem.bytes (real_address a) n } }

-- `pc` moves, and cycles are used.
abbrev pub advance : ℕ → ℕ → Visible → Visible
advance n c v = record v { pc = (v.pc + n) % 65536; cycles = v.cycles -ℤ pos c }

-- A register is loaded, with the flags Z and N.
pub data Register : Type 0 where
  reg_a reg_x reg_y : Register

abbrev pub get : Register → Visible → ℕ
get reg_a v = v.a
get reg_x v = v.x
get reg_y v = v.y

abbrev pub put : Register → ℕ → Visible → Visible
put reg_a n v = record v { a = n; ps = zn n v.ps }
put reg_x n v = record v { x = n; ps = zn n v.ps }
put reg_y n v = record v { y = n; ps = zn n v.ps }
