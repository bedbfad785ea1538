-- ===== src/Instructions/Count.antt =====
-- INC and DEC of src/olc6502.c as instructions in the zero page.
use m.Base.{ℕ, ◌+◌, ◌%◌, ◌/◌, ◌<◌, ◌≡◌, ◌∙◌, refl, arith, some, ◌==◌, to_bit, u8, u16, leb, false}
use m.Base.Int.{pos, ◌-ℤ◌, -ℤ_twice}
use m.Decoder.{Decoder}
use m.Memory.{update, total_memory_size}
use m.Decoder.Access.{bus_write_byte_lem}
use m.Decoder.Map.{byte_at, line_of, real_address, real_address-in_range}
use m.Cpu.{State, ◌>>=◌, gets, set_temp, set_addr, spend, write, get_bit, flag_z, flag_n}
use m.Clock.{step}
use m.Valid.{IsValid}
use m.Alu.Flags.{zn, zn_bits, update_flags_lem}
use m.Instructions.{CountIns, CountMode, count, count_opcode, code}
use m.Instructions.Meaning.{meaning, locate_count, counted}
use m.Instructions.Addressing.{byte_at-byte, zp_lem}
use m.Instructions.Round.{begun, step_at}

abbrev count_of : CountIns → State → ℕ
count_of i s = u8 (counted i s.cpu.a)

abbrev target : State → ℕ
target s = byte_at s.cpu.ce ((s.cpu.pc + 1) % 65536)

-- The state with the flags still to be set and the byte to be written.
abbrev counting : CountIns → State → State
counting i s = record (begun s) {
  cpu = record (begun s).cpu {
    pc = u16 ((s.cpu.pc + 1) % 65536 + 1);
    ce = record s.cpu.ce { ce = line_of ((s.cpu.pc + 1) % 65536) };
  };
  cycles = s.cycles -ℤ pos 1 -ℤ pos 1 -ℤ pos 3;
  addr = target s;
  temp = count_of i s;
}

-- The state behind INC or DEC.
abbrev count_round : CountIns → State → State
count_round i s = record (counting i s) {
  cpu = record (counting i s).cpu {
    ps = zn (count_of i s) (begun s).cpu.ps;
    ce = record {
      ce = line_of (target s);
      mem = record { bytes = update s.cpu.ce.mem.bytes (real_address (target s)) (count_of i s) };
    };
  };
}

step-count_round :
    (i : CountIns) (s : State)
    → IsValid s
    → byte_at s.cpu.ce s.cpu.pc ≡ count_opcode i CountMode.zp
    → step s ≡ some (tt, count_round i s)
unfolding code meaning locate_count ◌>>=◌ gets set_temp set_addr spend write byte_at
step-count_round i s v here =
    let small = byte_at-byte s.cpu.ce ((s.cpu.pc + 1) % 65536) v.mem_bytes in
    let same : u16 (target s) ≡ target s = omega arith in
    let a : u8 s.cpu.a ≡ s.cpu.a = omega (arith, v.a_byte) in
    let once : u8 (count_of i s) ≡ count_of i s = omega arith in
    let inside : real_address (target s) < total_memory_size =
      real_address-in_range (target s) (omega arith) in
    step_at (count i CountMode.zp) s v here
    ∙ rw (
      a,
      zp_lem (record (begun s) { temp = s.cpu.a }) (omega arith),
      same,
      update_flags_lem (count_of i s) (counting i s) (omega arith),
      same,
      once,
      bus_write_byte_lem (record s.cpu.ce { ce = line_of ((s.cpu.pc + 1) % 65536) }) (target s)
          (count_of i s) (omega arith) inside,
    )

byte_in_memory :
    (ce : Decoder) (a : ℕ) → leb 0x8000 a ≡ false → byte_at ce a ≡ ce.mem.bytes (real_address a)
unfolding byte_at
byte_in_memory ce a h = rw (h)

stored_byte : (f : ℕ → ℕ) (a n : ℕ) → n < 256 → update f a n a ≡ n
stored_byte f a n h = ground arith

-- INC and DEC of a byte in the zero page, with the opcode at `pc`, in a state whose variables are in range:
-- the round returns and stores the accumulator plus or minus 1, modulo 256, at the address behind
-- the opcode, whatever was stored there (on a 6502 it would be that byte that is counted). Z and N are those of that result, the accumulator stays,
-- `pc` moves by 2, and 5 cycles are used.
pub step-count_zp :
    (i : CountIns) (s : State)
    → IsValid s
    → byte_at s.cpu.ce s.cpu.pc ≡ count_opcode i CountMode.zp
    → let result = counted i s.cpu.a % 256 in
      (t : State) × (step s ≡ some (tt, t))
      × (byte_at t.cpu.ce (byte_at s.cpu.ce ((s.cpu.pc + 1) % 65536)) ≡ result)
      × (get_bit flag_z t.cpu.ps ≡ to_bit (result == 0))
      × (get_bit flag_n t.cpu.ps ≡ result / 128)
      × (t.cpu.a ≡ s.cpu.a)
      × (t.cpu.pc ≡ (s.cpu.pc + 2) % 65536)
      × (t.cycles ≡ s.cycles -ℤ pos 5)
step-count_zp i s v here =
    let small = byte_at-byte s.cpu.ce ((s.cpu.pc + 1) % 65536) v.mem_bytes in
    let bits = zn_bits (count_of i s) (begun s).cpu.ps (omega arith) in
    let low : leb 0x8000 (target s) ≡ false = ground arith in
    let stored =
      stored_byte s.cpu.ce.mem.bytes (real_address (target s)) (count_of i s) (omega arith) in
    (
      count_round i s,
      step-count_round i s v here,
      byte_in_memory (count_round i s).cpu.ce (target s) low ∙ stored,
      bits.0,
      bits.1,
      refl,
      omega arith,
      -ℤ_twice (s.cycles -ℤ pos 1) 1 3 ∙ -ℤ_twice s.cycles 1 4,
    )
