-- ===== src/Instructions/Indirect.antt =====
-- The indirect addressing modes of src/olc6502.c against the formulas in their comments.
use m.Base.{
  ℕ, ◌+◌, ◌*◌, ◌/◌, ◌%◌, ◌<◌, ◌≡◌, ◌∙◌, refl, ap, arith, some, inl, inr, Bool-cases, ltb→lt, not,
  ◌==◌, ltb, u16, if◌then◌else◌,
}
use m.Base.Int.{pos, ◌-ℤ◌, -ℤ_twice}
use m.Decoder.Map.{byte_at, line_of}
use m.Decoder.Word.{IsBytes, IsWhole}
use m.Cpu.{State}
use m.Cpu.Address.{get_indexed_indirect_x, get_indexed_indirect_y}
use m.Instructions.{Mode}
use m.Instructions.Operand.{word_at, argument, effective, crosses}
use m.Instructions.Addressing.{byte_at-byte, indirect_x_lem, indirect_y_lem}

-- The word whose low byte is at `low` and whose high byte is at `high`.
abbrev pub word_of : State → ℕ → ℕ → ℕ
word_of s low high = byte_at s.cpu.ce low + byte_at s.cpu.ce high * 256

in_ram : (a : ℕ) → a < 0x7ff → IsWhole a
in_ram a h = ground arith

next_y :
    (s : State) (arg : ℕ)
    → arg < 256
    → word_at s.cpu.ce arg ≡ word_of s arg (if arg == 0xff then 0x0100 else (arg + 1) % 256)
unfolding word_at
next_y s arg h =
    let same : (if arg == 0xff then 0x0100 else (arg + 1) % 256) ≡ arg + 1 = ground arith in
    rw (same) (omega arith)

next_x :
    (s : State) (low : ℕ)
    → word_at s.cpu.ce low
      ≡ (if ltb low 0xff then word_of s (low % 256) ((low + 1) % 256) else word_of s low (low + 1))
unfolding word_at
next_x s low = elim (Bool-cases (ltb low 0xff)) [
  | inl below ↦
      let less = ltb→lt low 0xff below in
      let first : low % 256 ≡ low = omega arith in
      let second : (low + 1) % 256 ≡ low + 1 = omega arith in
      rw (below, first, second) (omega arith)
  | inr above ↦ rw (above) (omega arith)
]

-- The states behind the two modes.
abbrev after_y : State → State
after_y s = record s {
  cpu = record s.cpu {
    pc = u16 (s.cpu.pc + 1);
    ce = record s.cpu.ce { ce = line_of (argument s) };
  };
  cycles = s.cycles -ℤ pos 1 -ℤ pos 2;
  oops_cycle = crosses Mode.indy s;
}

abbrev after_x : State → State
after_x s = record s {
  cpu = record s.cpu {
    pc = u16 (s.cpu.pc + 1);
    ce = record s.cpu.ce { ce = line_of (argument s + s.cpu.x) };
  };
  cycles = s.cycles -ℤ pos 1;
}

-- `get_indexed_indirectY`, with `pc` in range and a memory of bytes, returns Y plus the word whose low
-- byte is at the operand `arg` of the zero page, modulo 65536. The high byte is at (arg + 1) % 256, as
-- the comment in the function has it, for every operand but 0xff; for 0xff it is at 0x0100. `pc`
-- moves by 1, the cycles are 3, `oops_cycle` tells whether Y moved the address to another page, and
-- the memory stays.
pub get_indexed_indirect_y-returns :
    (s : State)
    → s.cpu.pc < 65536
    → IsBytes s.cpu.ce.mem
    → let arg = argument s in
      let base = word_of s arg (if arg == 0xff then 0x0100 else (arg + 1) % 256) in
      let final = (base + s.cpu.y) % 65536 in
      (t : State) × (get_indexed_indirect_y s ≡ some (final, t))
      × (t.cpu.pc ≡ (s.cpu.pc + 1) % 65536)
      × (t.cycles ≡ s.cycles -ℤ pos 3)
      × (t.oops_cycle ≡ not (base / 256 == final / 256))
      × (t.cpu.ce.mem ≡ s.cpu.ce.mem)
unfolding effective
get_indexed_indirect_y-returns s h bytes =
    let small = byte_at-byte s.cpu.ce s.cpu.pc bytes in
    let next = next_y s (argument s) small in
    (
      after_y s,
      indirect_y_lem s h bytes (in_ram (argument s) (omega arith))
          ∙ ap (λ w. some ((w + s.cpu.y) % 65536, after_y s)) next,
      refl,
      -ℤ_twice s.cycles 1 2,
      ap (λ w. not (w / 256 == (w + s.cpu.y) % 65536 / 256)) next,
      refl,
    )

-- `get_indexed_indirectX`, with `pc` and X in range and a memory of bytes, returns the word whose low byte is at
-- `arg + X` for the operand `arg`. Where `arg + X` is below 0xff, its bytes are at (arg + X) % 256 and
-- (arg + X + 1) % 256, as the comment in the function has it; from 0xff on they are at `arg + X` and
-- `arg + X + 1`, up to 0x01ff and behind the zero page. `pc` moves by 1, the cycles are 1 (the
-- declaration says 3), and `oops_cycle` and the memory stay.
pub get_indexed_indirect_x-returns :
    (s : State)
    → s.cpu.pc < 65536
    → s.cpu.x < 256
    → IsBytes s.cpu.ce.mem
    → let low = argument s + s.cpu.x in
      (t : State) × (get_indexed_indirect_x s
        ≡ some (
          if ltb low 0xff then word_of s (low % 256) ((low + 1) % 256) else word_of s low (low + 1),
          t,
        ))
      × (t.cpu.pc ≡ (s.cpu.pc + 1) % 65536)
      × (t.cycles ≡ s.cycles -ℤ pos 1)
      × (t.oops_cycle ≡ s.oops_cycle)
      × (t.cpu.ce.mem ≡ s.cpu.ce.mem)
unfolding effective
get_indexed_indirect_x-returns s h k bytes =
    let small = byte_at-byte s.cpu.ce s.cpu.pc bytes in
    (
      after_x s,
      indirect_x_lem s h bytes (in_ram (argument s + s.cpu.x) (omega arith))
          ∙ ap (λ w. some (w, after_x s)) (next_x s (argument s + s.cpu.x)),
      refl,
      refl,
      refl,
      refl,
    )
