-- ===== src/Isa/Control.antt =====
-- What the shifts, BIT, the jumps, calls and returns do with what a program sees, with `pc` behind the
-- opcode. The cycles are those that src/olc6502.c counts.
use m.Base.{ℕ, ◌+◌, ◌*◌, ◌/◌, ◌%◌, ◌==◌, to_bit, bit_and, bit_or}
use m.Base.Int.{pos, ◌-ℤ◌}
use m.Cpu.{get_bit, put_bit, flag_c, flag_z, flag_i}
use m.Alu.Flags.{zn}
use m.Switch.Shift.{ShiftOp, asl, lsr, rol, ror, ShiftMode}
use m.Switch.Bitwise.{Bit, bit_zp, bit_abs}
use m.Switch.Jump.{JumpIns, jmp_abs, jmp_ind, jsr, rts, brk, rti}
use m.Isa.{Visible, peek, peek_word, poke, advance}
use m.Isa.Address.{Place, address, size, IsReadable, IsWritable}
use m.Isa.Effects.{spent, push, top, drop}

-- The result of a shift of a byte with the carry `c`, and the carry behind it.
abbrev pub shift_result : ShiftOp → ℕ → ℕ → ℕ
shift_result asl n c = n * 2 % 256
shift_result rol n c = (n * 2 + c) % 256
shift_result lsr n c = n / 2
shift_result ror n c = n / 2 + c * 128

abbrev pub shift_carry : ShiftOp → ℕ → ℕ
shift_carry asl n = n / 128
shift_carry rol n = n / 128
shift_carry lsr n = n % 2
shift_carry ror n = n % 2

abbrev pub shift_ps : ShiftOp → ℕ → ℕ → ℕ
shift_ps op n ps = zn (shift_result op n (get_bit flag_c ps)) (put_bit flag_c (shift_carry op n) ps)

-- A shift of a byte in memory.
abbrev pub shift_at : ShiftOp → Place → ℕ → Visible → Visible
shift_at op p c v =
    let n = peek v (address p v) in
    let r = shift_result op n (get_bit flag_c v.ps) in
    advance (size p) c (record (poke (address p v) r v) { ps = shift_ps op n v.ps })

unfoldable pub run_shift : ShiftOp → ShiftMode → Visible → Visible
unfolding peek address
run_shift op ShiftMode.accumulator v =
    spent 1 (record v { a = shift_result op v.a (get_bit flag_c v.ps); ps = shift_ps op v.a v.ps })
run_shift op ShiftMode.zp v = shift_at op Place.zp 4 v
run_shift op ShiftMode.zpx v = shift_at op Place.zpx 5 v
run_shift op ShiftMode.abs v = shift_at op Place.abs 5 v
run_shift op ShiftMode.absx v = shift_at op Place.absx 6 v

-- A shift in memory can read its operand and store its result.
unfoldable pub IsShiftable : ShiftMode → Visible → Type 0
unfolding IsReadable address
IsShiftable ShiftMode.accumulator v = Unit {0}
IsShiftable ShiftMode.zp v = IsReadable Place.zp v × IsWritable (address Place.zp v)
IsShiftable ShiftMode.zpx v = IsReadable Place.zpx v × IsWritable (address Place.zpx v)
IsShiftable ShiftMode.abs v = IsReadable Place.abs v × IsWritable (address Place.abs v)
IsShiftable ShiftMode.absx v = IsReadable Place.absx v × IsWritable (address Place.absx v)

abbrev pub bit_place : Bit → Place
bit_place bit_zp = Place.zp
bit_place bit_abs = Place.abs

abbrev pub bit_cycles : Bit → ℕ
bit_cycles bit_zp = 2
bit_cycles bit_abs = 3

-- BIT sets Z by the AND of the operand and the accumulator, and joins the two high bits of the operand to
-- the flags N and V without clearing one.
unfoldable pub run_bit : Bit → Visible → Visible
unfolding peek address
run_bit i v =
    let p = bit_place i in
    let n = peek v (address p v) in
    advance (size p) (bit_cycles i) (record v {
      ps = bit_or (put_bit flag_z (to_bit (bit_and n v.a == 0)) v.ps) (bit_and n 0xc0);
    })

abbrev pub push_word : ℕ → Visible → Visible
push_word w v = push (w % 256) (push (w / 256) v)

-- The word that is pulled from the stack.
abbrev pub top_word : Visible → ℕ
top_word v = top (drop v) * 256 + top v

-- `JMP (addr)` reads the high byte of its target within the page of the low byte. JSR pushes the address of
-- the last byte of its operand. BRK pushes the address behind its padding byte and the flags, sets I,
-- and goes to the address at 0xfffe. RTI joins the byte to the flags as PLP does, and the delayed
-- interrupt flag becomes 0.
unfoldable pub run_jump : JumpIns → Visible → Visible
unfolding peek
run_jump jmp_abs v = record v { pc = peek_word v v.pc; cycles = v.cycles -ℤ pos 2 }
run_jump jmp_ind v =
    let low = peek_word v v.pc in
    let high = low / 256 * 256 + (low + 1) % 256 in
    record v { pc = peek v high * 256 + peek v low; cycles = v.cycles -ℤ pos 4 }
run_jump jsr v = record (push_word ((v.pc + 1) % 65536) v) {
  pc = peek_word v v.pc;
  cycles = v.cycles -ℤ pos 5;
}
run_jump rts v = record (drop (drop v)) {
  pc = (top_word v + 1) % 65536;
  cycles = v.cycles -ℤ pos 5;
}
run_jump brk v =
    let called = push (bit_or v.ps 0x30) (push_word ((v.pc + 1) % 65536) v) in
    record called {
      ps = put_bit flag_i 1 v.ps;
      i_nxt = 1;
      pc = peek_word called 0xfffe;
      cycles = v.cycles -ℤ pos 6;
    }
run_jump rti v = record (drop (drop (drop v))) {
  ps = bit_or v.ps (bit_and (top v) 0xcf);
  i_nxt = 0;
  pc = top_word (drop v);
  cycles = v.cycles -ℤ pos 5;
}

-- The words that are read do not end where a device ends.
unfoldable pub IsJumpable : JumpIns → Visible → Type 0
unfolding IsReadable
IsJumpable jmp_abs v = IsReadable Place.abs v
IsJumpable jmp_ind v = IsReadable Place.abs v
IsJumpable jsr v = IsReadable Place.abs v
IsJumpable _ v = Unit {0}
